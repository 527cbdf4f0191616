-- ===== src/Log/Lines.antt =====
-- What the logger (cpp/log/service_log.cpp) writes of a message.
use testcluster.Prelude.{
  ℕ, zero, suc, ◌≡◌, ◌≢◌, refl, ap, sym, ◌∙◌, append_assoc, false, none, some, [], ◌∷◌, ◌++◌, take,
  take-append_length, length, ◌<◌, arith, ◌==◌, inl, inr, Bool-cases,
}
use testcluster.Pack.Order.{Bytes}
use testcluster.Service.Table.{same_name}
use testcluster.Text.Divide.{Lacks}
use testcluster.Text.Strsep.{strsep, strsep-at, strsep-end}
use testcluster.Text.Parm.Trip.{strlen_all}
use testcluster.Log.{
  Severity, severity_info, severity_warning, severity_error, beei, beew, beee, string_prefix,
  c_text, stamp, logger, log_tagged, log_line,
}

-- The tag that a message with the severity starts with.
abbrev pub tag_of : Severity → Bytes
tag_of severity_info = beei
tag_of severity_warning = beew
tag_of severity_error = beee

string_prefix-take :
    (count : ℕ) (text memory : Bytes)
    → Lacks 0 text
    → string_prefix count (text ++ 0 ∷ memory) ≡ some (take count text)
unfolding string_prefix take
string_prefix-take zero text memory lacks = refl
string_prefix-take (suc count) [] memory lacks = refl
string_prefix-take (suc count) (c ∷ text) memory lacks =
    ground (arith, string_prefix-take count text memory (lacks.1))

c_text_all : (text memory : Bytes) → Lacks 0 text → c_text (some (text ++ 0 ∷ memory)) ≡ some text
unfolding c_text
c_text_all text memory lacks =
    rw (strlen_all text memory lacks, take-append_length (length text) text (0 ∷ memory) refl)

other_name : (xs ys : Bytes) → xs ≢ ys → same_name xs ys ≡ false
unfolding same_name
other_name [] [] h = absurd (h refl)
other_name [] (b ∷ ys) h = refl
other_name (a ∷ xs) [] h = refl
other_name (a ∷ xs) (b ∷ ys) h = elim (Bool-cases (a == b)) [
  | inl e ↦
      let same : a ≡ b = ground arith in
      let other : xs ≢ ys = λ rest. h (cc (same, rest)) in rw (e, other_name xs ys other)
  | inr e ↦ rw (e)
]

-- A tag has bytes from 65 on.
tag-Lacks :
    (severity : Severity) (gap : ℕ) (word : Bytes)
    → gap < 65
    → Lacks gap word
    → Lacks gap (tag_of severity ++ word)
tag-Lacks severity_info gap word low lacks =
    (omega arith, (omega arith, (omega arith, (omega arith, lacks))))
tag-Lacks severity_warning gap word low lacks =
    (omega arith, (omega arith, (omega arith, (omega arith, lacks))))
tag-Lacks severity_error gap word low lacks =
    (omega arith, (omega arith, (omega arith, (omega arith, lacks))))

-- The block that a tag selects.
logger-log_tagged :
    (severity : Severity) (behind : Bytes) (source : ℕ)
    → logger (tag_of severity ++ behind) source
      ≡ log_tagged severity source (tag_of severity ++ behind)
unfolding logger string_prefix same_name
logger-log_tagged severity_info behind source = refl
logger-log_tagged severity_warning behind source = refl
logger-log_tagged severity_error behind source = refl

tagged_at :
    (severity : Severity) (word memory : Bytes)
    → Lacks 0 word
    → Lacks 32 word
    → strsep 32 (tag_of severity ++ (word ++ 32 ∷ memory))
      ≡ some (tag_of severity ++ word, some memory)
tagged_at severity word memory w gap =
    ap (strsep 32) (sym (append_assoc (tag_of severity) word (32 ∷ memory)))
    ∙ strsep-at 32 (tag_of severity ++ word) memory (omega arith)
        (tag-Lacks severity 0 word (omega arith) w) (tag-Lacks severity 32 word (omega arith) gap)

tagged_end :
    (severity : Severity) (word memory : Bytes)
    → Lacks 0 word
    → Lacks 32 word
    → strsep 32 (tag_of severity ++ (word ++ 0 ∷ memory)) ≡ some (tag_of severity ++ word, none)
tagged_end severity word memory w gap =
    ap (strsep 32) (sym (append_assoc (tag_of severity) word (0 ∷ memory)))
    ∙ strsep-end 32 (tag_of severity ++ word) memory (tag-Lacks severity 0 word (omega arith) w)
        (tag-Lacks severity 32 word (omega arith) gap)

-- What the logger writes of a C string, by whether it starts with a tag and has a gap behind it: a message with a tag, behind
-- which the first gap follows, is the text behind that gap with the severity of the tag; a message with a tag and
-- no gap gives operator<< a NULL; any other message is an info line, as it is. The stamp of the source is in front.
pub logger_lines :
    (severity : Severity) (word body text memory : Bytes) (source : ℕ)
    → Lacks 0 word
    → Lacks 32 word
    → Lacks 0 body
    → Lacks 0 text
    → ((s : Severity) → take 4 text ≢ tag_of s)
    → (logger (tag_of severity ++ (word ++ 32 ∷ (body ++ 0 ∷ memory))) source
        ≡ some (severity, stamp source ++ body))
      × (logger (tag_of severity ++ (word ++ 0 ∷ memory)) source ≡ none)
      × (logger (text ++ 0 ∷ memory) source ≡ some (severity_info, stamp source ++ text))
unfolding logger log_tagged log_line c_text
logger_lines severity word body text memory source w gap b t other = (
  rw (
    logger-log_tagged severity (word ++ 32 ∷ (body ++ 0 ∷ memory)) source,
    tagged_at severity word (body ++ 0 ∷ memory) w gap,
    c_text_all body memory b,
  ),
  rw (
    logger-log_tagged severity (word ++ 0 ∷ memory) source,
    tagged_end severity word memory w gap,
  ),
  rw (
    string_prefix-take 4 text memory t,
    other_name (take 4 text) beei (other severity_info),
    other_name (take 4 text) beew (other severity_warning),
    other_name (take 4 text) beee (other severity_error),
    c_text_all text memory t,
  ),
)
