-- ===== src/Log.antt =====
-- The logger service (cpp/log/service_log.cpp) and the log functions of cpp/log/Log.cpp. What glog writes behind a
-- line's severity is the text given to it.
pub mod Lines
mod Tests
use testcluster.Prelude.{
  ℕ, zero, suc, ◌+◌, ◌-◌, ◌/◌, ◌%◌, ◌^◌, Bool, true, false, not, Option, none, some, List, [], ◌∷◌,
  ◌++◌, take, ltb, ◌==◌, if◌then◌else◌,
}
use testcluster.Pack.Order.{Bytes}
use testcluster.Pack.Decode.{Access, ◌>>=◌, strlen}
use testcluster.Service.Table.{same_name}
use testcluster.Text.Strsep.{strsep}

-- The severities of glog that are used.
pub data Severity : Type 0 where
  severity_info : Severity
  severity_warning : Severity
  severity_error : Severity

-- A line that is given to LOG.
abbrev pub Line : Type 0
Line = Severity × Bytes

abbrev pub beei : Bytes
beei = b'B' ∷ b'E' ∷ b'E' ∷ b'I' ∷ []

abbrev pub beew : Bytes
beew = b'B' ∷ b'E' ∷ b'E' ∷ b'W' ∷ []

abbrev pub beee : Bytes
beee = b'B' ∷ b'E' ∷ b'E' ∷ b'E' ∷ []

unfoldable pub hex_digit : ℕ → ℕ
hex_digit n = if ltb n 10 then 48 + n else 87 + n

-- The last `count` digits of a number in base 16, in front of `behind`.
unfoldable pub hex : ℕ → ℕ → Bytes → Bytes
hex zero n behind = behind
hex (suc count) n behind = hex count (n / 16) (hex_digit (n % 16) ∷ behind)

-- sprintf of "[%08x] ", if the source is not 0; else nothing.
unfoldable pub stamp : ℕ → Bytes
unfolding hex hex_digit
stamp source = if source == 0 then [] else b'[' ∷ hex 8 source (b']' ∷ 32 ∷ [])

-- snprintf of "%.*s": the string up to `count` bytes, of which no more are read.
unfoldable pub string_prefix : ℕ → Bytes → Access Bytes
string_prefix zero memory = some []
string_prefix (suc count) [] = none
string_prefix (suc count) (c ∷ rest) =
    let more = string_prefix count rest in
    if c == 0 then some [] else (do word ← more; some (c ∷ word))

-- The C string that is written; a NULL may not be given to operator<<.
unfoldable pub c_text : Option Bytes → Access Bytes
c_text none = none
c_text (some memory) = do n ← strlen memory; some (take n memory)

-- One of the four blocks: a line with the stamp of the source.
unfoldable pub log_line : Severity → ℕ → Option Bytes → Access Line
unfolding c_text stamp
log_line severity source content = do text ← c_text content; some (severity, stamp source ++ text)

-- A block for a tag: what is before the first gap is left out.
unfoldable pub log_tagged : Severity → ℕ → Bytes → Access Line
unfolding log_line
log_tagged severity source memory = do
  (tag, behind) ← strsep 32 memory
  log_line severity source behind

-- _logger: the line, or `none` for a read outside the message or a NULL that is written.
unfoldable pub logger : Bytes → ℕ → Access Line
unfolding string_prefix log_tagged log_line
logger memory source = do
  prefix_name ← string_prefix 4 memory
  if same_name prefix_name beei
      then log_tagged severity_info source memory
      else if same_name prefix_name beew
      then log_tagged severity_warning source memory
      else if same_name prefix_name beee
      then log_tagged severity_error source memory
      else log_line severity_info source (some memory)

-- log_debug, log_error and log_info, of the formatted text, of which vsnprintf keeps what fits into `tmp`.
abbrev pub tmp_size : ℕ
tmp_size = 1024

unfoldable pub log_debug : Bytes → Line
log_debug text = (severity_info, take (tmp_size - 1) text)

unfoldable pub log_error : Bytes → Line
log_error text = (severity_error, take (tmp_size - 1) text)

unfoldable pub log_info : Bytes → Line
log_info text = (severity_warning, take (tmp_size - 1) text)
