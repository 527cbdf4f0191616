-- ===== src/Dispatcher/Words.antt =====
-- The function of a message type (lua/lib/dispatcher.lua): the word behind the last dot.
use testcluster.Prelude.{
  ℕ, ◌≡◌, refl, sym, ap, ◌∙◌, true, Bool-cases, inl, inr, Option, none, some, [], ◌∷◌, ◌++◌,
  append_assoc, append-nil,
}
use testcluster.Pack.Order.{Bytes}
use testcluster.Dispatcher.{is_letter, end_word, last_word_from, last_word}

-- A name of letters only.
abbrev pub IsWord : Bytes → Type 0
IsWord [] = Unit
IsWord (c ∷ word) = (is_letter c ≡ true) × IsWord word

letters_read :
    (func word : Bytes) (last : Option Bytes)
    → IsWord func
    → last_word_from func word last ≡ end_word (word ++ func) last
unfolding last_word_from
letters_read [] word last w = ap (λ r. end_word r last) (sym (append-nil word))
letters_read (c ∷ func) word last (is_c, w) = rw (is_c) (
    letters_read func (word ++ c ∷ []) last w
    ∙ ap (λ r. end_word r last) (append_assoc word (c ∷ []) func))

-- Whatever stands in front of a dot, the words behind it are read on their own.
behind_dot :
    (front func word : Bytes) (last : Option Bytes)
    → (last' : Option Bytes) × (last_word_from (front ++ b'.' ∷ func) word last
        ≡ last_word_from func [] last')
unfolding last_word_from
behind_dot [] func word last = (end_word word last, refl)
behind_dot (c ∷ front) func word last = elim (Bool-cases (is_letter c)) [
  | inl letter ↦ rw (letter) (behind_dot front func (word ++ c ∷ []) last)
  | inr other ↦ rw (other) (behind_dot front func [] (end_word word last))
]

pub last_word_of_type :
    (front func : Bytes) (c : ℕ)
    → IsWord (c ∷ func)
    → last_word (front ++ b'.' ∷ c ∷ func) ≡ some (c ∷ func)
unfolding last_word end_word
last_word_of_type front func c w =
    let (last, e) = behind_dot front (c ∷ func) [] none in e ∙ letters_read (c ∷ func) [] last w
