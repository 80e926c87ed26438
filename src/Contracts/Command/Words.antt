-- ===== src/Contracts/Command/Words.antt =====
-- Looking for the word "then" is looking through the words of a text.
use sttork.Base.{
  sym, ap, ◌∙◌, ℕ, ◌≡◌, refl, ◌≢◌, Bool, true, false, ◌&&◌, ◌||◌, List, [], ◌∷◌, arith, any, All,
  if◌then◌else◌, Bool-cases, inl, inr,
}
use sttork.Base.Text.{Text, is_space}
use sttork.Contracts.Command.{letter, then_letters, at_end, word_here, has_then}

-- The words of a text: what stands between two units of white space, which may be nothing.
abbrev push : ℕ → List Text → List Text
push c [] = (c ∷ []) ∷ []
push c (w ∷ ws) = (c ∷ w) ∷ ws

unfoldable pub words : Text → List Text
words [] = [] ∷ []
words (c ∷ s) = let rest = words s in if is_space c then [] ∷ rest else push c rest

-- A text that is exactly a word, in any mixture of cases.
unfoldable pub is_word : List (ℕ × ℕ) → Text → Bool
is_word [] [] = true
is_word [] (c ∷ s) = false
is_word (l ∷ ls) [] = false
is_word (l ∷ ls) (c ∷ s) = letter l c && is_word ls s

abbrev head : List Text → Text
head [] = []
head (w ∷ ws) = w

abbrev tail : List Text → List Text
tail [] = []
tail (w ∷ ws) = ws

words-cons : (s : Text) → words s ≡ head (words s) ∷ tail (words s)
unfolding words
words-cons [] = refl
words-cons (c ∷ s) = ground (arith, words-cons s)

-- Units taken off the head of the first word.
head-words_space : (c : ℕ) (s : Text) → is_space c ≡ true → head (words (c ∷ s)) ≡ []
unfolding words
head-words_space c s h = ground arith

head-words_solid :
    (c : ℕ) (s : Text) → is_space c ≡ false → head (words (c ∷ s)) ≡ c ∷ head (words s)
unfolding words
head-words_solid c s h = ground (arith, words-cons s)

tail-words_space : (c : ℕ) (s : Text) → is_space c ≡ true → tail (words (c ∷ s)) ≡ words s
unfolding words
tail-words_space c s h = ground arith

tail-words_solid : (c : ℕ) (s : Text) → is_space c ≡ false → tail (words (c ∷ s)) ≡ tail (words s)
unfolding words
tail-words_solid c s h = ground (arith, words-cons s)

head-words_nil : (s : Text) → at_end s ≡ true → head (words s) ≡ []
unfolding words at_end
head-words_nil [] h = refl
head-words_nil (c ∷ s) h = ground arith

head-words_cons : (s : Text) → at_end s ≡ false → head (words s) ≢ []
unfolding at_end
head-words_cons [] h = cc
head-words_cons (c ∷ s) h = ground (arith, head-words_solid c s)

-- The letters of a word are not white space.
abbrev IsSolid : ℕ × ℕ → Type 0
IsSolid (upper, lower) = (is_space upper ≡ false) × (is_space lower ≡ false)

letter-space : (l : ℕ × ℕ) (c : ℕ) → IsSolid l → is_space c ≡ true → letter l c ≡ false
letter-space (upper, lower) c h e = ground arith

solid-word : (w : Text) → w ≢ [] → false ≡ is_word [] w
unfolding is_word
solid-word [] h = absurd (h refl)
solid-word (c ∷ w) h = refl

word_here-words :
    (ls : List (ℕ × ℕ)) (s : Text) → All IsSolid ls → word_here ls s ≡ is_word ls (head (words s))
unfolding word_here is_word words
word_here-words [] s h = elim (Bool-cases (at_end s)) [
  | inl e ↦ rw (e, head-words_nil s e)
  | inr e ↦ rw e (solid-word (head (words s)) (head-words_cons s e))
]
word_here-words (l ∷ ls) [] h = refl
word_here-words (l ∷ ls) (c ∷ s) (hl, h) = elim (Bool-cases (is_space c)) [
  | inl e ↦ rw (letter-space l c hl e, head-words_space c s e)
  | inr e ↦ rw (head-words_solid c s e, word_here-words ls s h)
]

then-IsSolid : All IsSolid then_letters
unfolding is_space
then-IsSolid = ground arith

abbrev then_at : Text → Bool
then_at = is_word then_letters

-- With no boundary before it, the first word does not count.
has_then-split :
    (b : Bool) (s : Text)
    → has_then b s ≡ ((b && then_at (head (words s))) || any then_at (tail (words s)))
unfolding has_then
has_then-split b [] = unfold words is_word in ground arith
has_then-split b (c ∷ s) = elim (Bool-cases (is_space c)) [
  | inl e ↦
      rw
        (
          word_here-words then_letters (c ∷ s) then-IsSolid,
          has_then-split (is_space c) s,
          tail-words_space c s e,
          e,
        )
        (ap (λ ws. (b && then_at (head (words (c ∷ s)))) || any then_at ws) (sym (words-cons s)))
  | inr e ↦ rw (
    word_here-words then_letters (c ∷ s) then-IsSolid,
    has_then-split (is_space c) s,
    tail-words_solid c s e,
    e,
  )
]

-- The test for a separating "then" finds exactly the texts of which one word is "then".
pub has_then-words : (s : Text) → has_then true s ≡ any (is_word then_letters) (words s)
has_then-words s = has_then-split true s ∙ sym (ap (any then_at) (words-cons s))
