-- ===== src/Logging/Tests.antt =====
-- internal/utils/logging.go: both directories are named, one of them is there.
use rtq_go_endpoint.Common.{◌≡◌, ◌⊎◌, refl, true, [], ◌∷◌}
use rtq_go_endpoint.RtpLog.Text.{Bytes, digit_char}
use rtq_go_endpoint.Logging.{
  Stat, there, missing, System, standard_output, file, has_directory, trim_right, hex_bytes,
  rtp_log_path, qlog_path, get_file_log_writer, get_rtp_log_writer, get_qlog_writer,
}
use rtq_go_endpoint.Logging.Files.{log_files_apart}

-- `a` is missing
abbrev stat_of : Bytes → Stat
stat_of [] = there
stat_of (b ∷ []) = missing
stat_of (b ∷ (c ∷ cs)) = there

abbrev system : System
system = record {
  main_log_file = [];
  cc_log_file = [];
  stream_log_file = [];
  qlog_dir = 97 ∷ [];
  rtp_log_dir = 98 ∷ 47 ∷ [];
  stat = stat_of;
  mkdir_all = λ dir mode. true;
  create = λ path. true;
}

abbrev name : Bytes
name = 120 ∷ []

abbrev connection : Bytes
connection = 255 ∷ []

log_files_apart_example :
    ((file (98 ∷ 47 ∷ 120 ∷ 46 ∷ 108 ∷ 111 ∷ 103 ∷ []) ≡ standard_output) ⊎ (name ≡ name))
    × (connection ≡ connection)
unfolding has_directory trim_right hex_bytes digit_char rtp_log_path qlog_path get_file_log_writer
    get_rtp_log_writer get_qlog_writer
log_files_apart_example =
    log_files_apart system
      (λ stream. get_file_log_writer system (rtp_log_path (98 ∷ 47 ∷ []) stream))
      (λ conn_id. get_file_log_writer system (qlog_path (97 ∷ []) conn_id)) name name connection
      connection (file (98 ∷ 47 ∷ 120 ∷ 46 ∷ 108 ∷ 111 ∷ 103 ∷ []))
      (file (97 ∷ 47 ∷ 102 ∷ 102 ∷ 46 ∷ 113 ∷ 108 ∷ 111 ∷ 103 ∷ [])) refl refl refl refl refl refl
