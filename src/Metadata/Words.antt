-- ===== src/Metadata/Words.antt =====
-- `containsWord` and `isWordChar` of metadata.go.
use go_imagefy.Prelude.{
  ℕ, zero, suc, ◌+◌, ◌-◌, Bool, true, false, ◌||◌, ◌&&◌, not, Option, some, none, if◌then◌else◌,
  leb, ◌==◌, length, get_elem?,
}
use go_imagefy.Text.{Text, index, drop}

abbrev pub is_word_char : ℕ → Bool
is_word_char b =
    (leb b'a' b && leb b b'z') || (leb b'A' b && leb b b'Z') || (leb b'0' b && leb b b'9')

-- `isWordChar(text[i])`.
unfoldable pub word_char_at : Text → ℕ → Bool
word_char_at text i = elim (get_elem? text i) [ none ↦ false | some b ↦ is_word_char b ]

-- The test of one round, on the occurrence at `idx`.
unfoldable pub stands_alone : Text → Text → ℕ → Bool
unfolding word_char_at
stands_alone text word idx =
    let stop = idx + length word in
    let left_ok = idx == 0 || not (word_char_at text (idx - 1)) in
    let right_ok = leb (length text) stop || not (word_char_at text stop) in left_ok && right_ok

-- The loop of `containsWord`, with fuel; `none` means that the fuel ran out.
unfoldable pub word_loop : ℕ → Text → Text → Option Bool
word_loop zero text word = none
word_loop (suc fuel) text word = elim (index text word) [
  | none ↦ some false
  | some idx ↦
      let rest = word_loop fuel (drop (idx + 1) text) word in
      if stands_alone text word idx then some true else rest
]

-- Each round drops a rune at least, so the length is enough fuel.
unfoldable pub contains_word : Text → Text → Bool
contains_word text word = elim (word_loop (suc (length text)) text word) [
  | none ↦ false
  | some found ↦ found
]
