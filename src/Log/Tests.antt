-- ===== src/Log/Tests.antt =====
-- The logger (cpp/log) on small messages, and its theorem at a concrete one.
use testcluster.Prelude.{refl, ◌≡◌, ◌≢◌, ap, length, arith, none, some, [], ◌∷◌, ◌++◌, take}
use testcluster.Pack.Order.{Bytes}
use testcluster.Log.Lines.{tag_of, logger_lines}
use testcluster.Pack.Decode.{strlen}
use testcluster.Service.Table.{same_name}
use testcluster.Text.Strsep.{strsep}
use testcluster.Log.{
  logger, log_tagged, log_line, c_text, stamp, hex, hex_digit, string_prefix, beew, Severity,
  severity_info, severity_error, severity_warning,
}

warning_run :
    logger (b'B' ∷ b'E' ∷ b'E' ∷ b'W' ∷ 32 ∷ b'x' ∷ 0 ∷ []) 26
    ≡ some (
      severity_warning,
      b'[' ∷ b'0' ∷ b'0' ∷ b'0' ∷ b'0' ∷ b'0' ∷ b'0' ∷ b'1' ∷ b'a' ∷ b']' ∷ 32 ∷ b'x' ∷ [],
    )
unfolding logger log_tagged log_line c_text stamp hex hex_digit string_prefix strsep same_name
    strlen take
warning_run = refl

no_gap_run : logger (beew ++ 0 ∷ []) 0 ≡ none
unfolding logger log_tagged log_line c_text string_prefix strsep same_name
no_gap_run = refl

abbrev other_text : Bytes
other_text = b'x' ∷ []

other_text-tag : (s : Severity) → take 4 other_text ≢ tag_of s
unfolding take
other_text-tag severity_info e = let size = ap length e in omega arith
other_text-tag severity_warning e = let size = ap length e in omega arith
other_text-tag severity_error e = let size = ap length e in omega arith

logger_lines_example :
    (logger (tag_of severity_error ++ (b'!' ∷ 32 ∷ b'y' ∷ 0 ∷ [])) 26
      ≡ some (severity_error, stamp 26 ++ b'y' ∷ []))
    × (logger (tag_of severity_error ++ (b'!' ∷ 0 ∷ [])) 26 ≡ none)
    × (logger (other_text ++ 0 ∷ []) 26 ≡ some (severity_info, stamp 26 ++ other_text))
logger_lines_example =
    logger_lines severity_error (b'!' ∷ []) (b'y' ∷ []) other_text [] 26 (omega arith) (omega arith)
      (omega arith) (omega arith) other_text-tag
