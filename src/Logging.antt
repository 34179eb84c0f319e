-- ===== src/Logging.antt =====
-- internal/utils/logging.go: where the logs go. What the code asks of the environment and of the file system
-- is an input: the variables, whether a directory is there, whether it can be made and which files can
-- be created. Paths and names are bytes, `none` is an error.
pub mod Files
mod Tests
use rtq_go_endpoint.Common.{
  ℕ, ◌+◌, ◌/◌, ◌%◌, Bool, true, false, ◌==◌, Option, none, some, List, [], ◌∷◌, ◌++◌, if◌then◌else◌,
}
use rtq_go_endpoint.RtpLog.Text.{Bytes, digit_char}

-- What `os.Stat` says of a directory.
pub data Stat : Type 0 where
  there : Stat
  missing : Stat
  unknown : Stat

pub record System : Type 0 where
  pub main_log_file : Bytes  -- LOG_FILE
  pub cc_log_file : Bytes  -- CCLOGFILE
  pub stream_log_file : Bytes  -- STREAMLOGFILE
  pub qlog_dir : Bytes  -- QLOGDIR
  pub rtp_log_dir : Bytes  -- RTPLOGDIR
  pub stat : Bytes → Stat
  pub mkdir_all : Bytes → ℕ → Bool
  pub create : Bytes → Bool

pub data Writer : Type 0 where
  standard_output : Writer
  file : Bytes → Writer

unfoldable pub get_file_log_writer : System → Bytes → Option Writer
get_file_log_writer w path = if w.create path then some (file path) else none

-- The three functions that differ only in their variable.
file_or_stdout : System → Bytes → Option Writer
file_or_stdout w [] = some standard_output
file_or_stdout w (b ∷ bs) = get_file_log_writer w (b ∷ bs)

unfoldable pub get_main_log_writer : System → Option Writer
unfolding file_or_stdout
get_main_log_writer w = file_or_stdout w w.main_log_file

unfoldable pub get_cc_stat_log_writer : System → Option Writer
unfolding file_or_stdout
get_cc_stat_log_writer w = file_or_stdout w w.cc_log_file

unfoldable pub get_stream_log_writer : System → Option Writer
unfolding file_or_stdout
get_stream_log_writer w = file_or_stdout w w.stream_log_file

-- The directory is made with `mode` if it is not there.
unfoldable pub has_directory : System → Bytes → ℕ → Bool
has_directory w dir mode = elim (w.stat dir) [
  | there ↦ true
  | missing ↦ w.mkdir_all dir mode
  | unknown ↦ false
]

-- `strings.TrimRight(…, "/")`
keep_unless_slash : ℕ → Bytes → Bytes
keep_unless_slash b [] = if b == 47 then [] else b ∷ []
keep_unless_slash b (c ∷ cs) = b ∷ (c ∷ cs)

unfoldable pub trim_right : Bytes → Bytes
unfolding keep_unless_slash
trim_right [] = []
trim_right (b ∷ bs) = keep_unless_slash b (trim_right bs)

-- `%x` of bytes: two digits for each
unfoldable pub hex_bytes : Bytes → Bytes
hex_bytes [] = []
hex_bytes (b ∷ bs) = digit_char (b / 16) ∷ digit_char (b % 16) ∷ hex_bytes bs

unfoldable pub qlog_path : Bytes → Bytes → Bytes
qlog_path dir conn_id =
    trim_right dir ++ (47 ∷ (hex_bytes conn_id ++ (46 ∷ 113 ∷ 108 ∷ 111 ∷ 103 ∷ [])))

unfoldable pub rtp_log_path : Bytes → Bytes → Bytes
rtp_log_path dir stream = trim_right dir ++ (47 ∷ (stream ++ (46 ∷ 108 ∷ 111 ∷ 103 ∷ [])))

-- An error, no callback at all, or the callback; it gives nil where a file cannot be created.
pub data QlogWriter : Type 0 where
  failed : QlogWriter
  unset : QlogWriter
  callback : (Bytes → Option Writer) → QlogWriter

qlog_for : System → Bytes → QlogWriter
qlog_for w [] = unset
qlog_for w (b ∷ bs) =
    if has_directory w (b ∷ bs) 438
    then callback (λ conn_id. get_file_log_writer w (qlog_path (b ∷ bs) conn_id))
    else failed

unfoldable pub get_qlog_writer : System → QlogWriter
unfolding qlog_for
get_qlog_writer w = qlog_for w w.qlog_dir

rtp_for : System → Bytes → Option (Bytes → Option Writer)
rtp_for w [] = some (λ stream. some standard_output)
rtp_for w (b ∷ bs) =
    if has_directory w (b ∷ bs) 511
    then some (λ stream. get_file_log_writer w (rtp_log_path (b ∷ bs) stream))
    else none

unfoldable pub get_rtp_log_writer : System → Option (Bytes → Option Writer)
unfolding rtp_for
get_rtp_log_writer w = rtp_for w w.rtp_log_dir
