-- ===== src/Logging/Files.antt =====
-- internal/utils/logging.go: logs with different names get different paths.
use native.Mathlib.Nat.{div-add-mod'}
use mathlib.Core.List.{append_cancel_left, append_cancel_right}
use rtq_go_endpoint.Common.{
  ℕ, ◌+◌, ◌*◌, ◌/◌, ◌%◌, ◌≡◌, ◌⊎◌, ◌∙◌, inl, inr, refl, sym, subst, ap, ap₂, true, false, Option,
  none, some, [], ◌∷◌, if◌then◌else◌,
}
use rtq_go_endpoint.RtpLog.Text.{Bytes, digit_char}
use rtq_go_endpoint.RtpLog.Text.Numbers.{char_digit, char_digit-digit_char}
use rtq_go_endpoint.Logging.{
  System, Writer, standard_output, file, get_file_log_writer, has_directory, trim_right, hex_bytes,
  qlog_path, rtp_log_path, QlogWriter, failed, unset, callback, qlog_for, get_qlog_writer, rtp_for,
  get_rtp_log_writer,
}

digit_char-injective : (a b : ℕ) → digit_char a ≡ digit_char b → a ≡ b
digit_char-injective a b h =
    sym (char_digit-digit_char a) ∙ (ap char_digit h ∙ char_digit-digit_char b)

hex_bytes-injective : (c d : Bytes) → hex_bytes c ≡ hex_bytes d → c ≡ d
unfolding hex_bytes
hex_bytes-injective [] [] h = refl
hex_bytes-injective [] (b ∷ d) h = absurd (cc h)
hex_bytes-injective (a ∷ c) [] h = absurd (cc h)
hex_bytes-injective (a ∷ c) (b ∷ d) h =
    let high : a / 16 ≡ b / 16 = digit_char-injective (a / 16) (b / 16) (cc h) in
    let low : a % 16 ≡ b % 16 = digit_char-injective (a % 16) (b % 16) (cc h) in
    let same : a ≡ b =
      sym (div-add-mod' a 16) ∙ (ap₂ (λ x y. x * 16 + y) high low ∙ div-add-mod' b 16) in
    ap₂ (λ x xs. x ∷ xs) same (hex_bytes-injective c d (cc h))

qlog_path-injective : (dir c d : Bytes) → qlog_path dir c ≡ qlog_path dir d → c ≡ d
unfolding qlog_path
qlog_path-injective dir c d h = hex_bytes-injective c d (
    append_cancel_right (hex_bytes c) (hex_bytes d) (46 ∷ 113 ∷ 108 ∷ 111 ∷ 103 ∷ [])
      (cc (append_cancel_left (trim_right dir) _ _ h)))

rtp_log_path-injective : (dir s t : Bytes) → rtp_log_path dir s ≡ rtp_log_path dir t → s ≡ t
unfolding rtp_log_path
rtp_log_path-injective dir s t h =
    append_cancel_right s t (46 ∷ 108 ∷ 111 ∷ 103 ∷ [])
      (cc (append_cancel_left (trim_right dir) _ _ h))

-- A writer that is got for a path is the file of this path.
get_file-file :
    (w : System) (path : Bytes) (f : Writer) → get_file_log_writer w path ≡ some f → f ≡ file path
unfolding get_file_log_writer
get_file-file w path f h =
    elim (w.create path) as (λ b. (if b then some (file path) else none) ≡ some f → f ≡ file path) [
      | true ↦ λ e. cc e
      | false ↦ λ e. absurd (cc e)
    ]
      h

same_path :
    (w : System) (p q : Bytes) (f : Writer)
    → get_file_log_writer w p ≡ some f
    → get_file_log_writer w q ≡ some f
    → p ≡ q
same_path w p q f h h' =
    let same : file p ≡ file q = sym (get_file-file w p f h) ∙ get_file-file w q f h' in cc same

-- Two names that `open_log` gives the same writer are the same, unless that is the standard output.
abbrev Separates : (Bytes → Option Writer) → Type 0
Separates open_log =
    (s t : Bytes) (f : Writer)
    → open_log s ≡ some f
    → open_log t ≡ some f
    → (f ≡ standard_output) ⊎ (s ≡ t)

abbrev RtpSeparates : Option (Bytes → Option Writer) → Type 0
RtpSeparates none = Unit
RtpSeparates (some open_log) = Separates open_log

abbrev QlogSeparates : QlogWriter → Type 0
QlogSeparates failed = Unit
QlogSeparates unset = Unit
QlogSeparates (callback open_log) =
    (c d : Bytes) (f : Writer) → open_log c ≡ some f → open_log d ≡ some f → c ≡ d

rtp_for-RtpSeparates : (w : System) (dir : Bytes) → RtpSeparates (rtp_for w dir)
unfolding rtp_for
rtp_for-RtpSeparates w [] = λ s t f h h'. inl (cc h)
rtp_for-RtpSeparates w (b ∷ bs) =
    elim (has_directory w (b ∷ bs) 511)
      as (λ has. RtpSeparates (
        if has
        then some (λ stream. get_file_log_writer w (rtp_log_path (b ∷ bs) stream))
        else none)) [
          | true ↦ λ s t f h h'. inr (rtp_log_path-injective (b ∷ bs) s t (same_path w _ _ f h h'))
          | false ↦ tt
        ]

qlog_for-QlogSeparates : (w : System) (dir : Bytes) → QlogSeparates (qlog_for w dir)
unfolding qlog_for
qlog_for-QlogSeparates w [] = tt
qlog_for-QlogSeparates w (b ∷ bs) =
    elim (has_directory w (b ∷ bs) 438)
      as (λ has. QlogSeparates (
        if has
        then callback (λ conn_id. get_file_log_writer w (qlog_path (b ∷ bs) conn_id))
        else failed)) [
          | true ↦ λ c d f h h'. qlog_path-injective (b ∷ bs) c d (same_path w _ _ f h h')
          | false ↦ tt
        ]

-- Where the callbacks for the RTP logs and for qlog are there, and a file is told by the text of its path: two RTP logs
-- that get the same writer have the same name, unless that writer is the standard output; two qlogs that get
-- the same file have the same connection id. The perspective, client or server, is not part of the name.
pub log_files_apart :
    (w : System) (rtp_log qlog : Bytes → Option Writer) (s t c d : Bytes) (f g : Writer)
    → get_rtp_log_writer w ≡ some rtp_log
    → get_qlog_writer w ≡ callback qlog
    → rtp_log s ≡ some f
    → rtp_log t ≡ some f
    → qlog c ≡ some g
    → qlog d ≡ some g
    → ((f ≡ standard_output) ⊎ (s ≡ t)) × (c ≡ d)
unfolding get_rtp_log_writer get_qlog_writer
log_files_apart w rtp_log qlog s t c d f g has_rtp has_qlog hs ht hc hd = (
  subst RtpSeparates has_rtp (rtp_for-RtpSeparates w w.rtp_log_dir) s t f hs ht,
  subst QlogSeparates has_qlog (qlog_for-QlogSeparates w w.qlog_dir) c d g hc hd,
)
