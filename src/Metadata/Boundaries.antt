-- ===== src/Metadata/Boundaries.antt =====
-- Occurrences of a word between boundaries, for `containsWord` of metadata.go.
use go_imagefy.Prelude.{
  ℕ, zero, suc, ◌+◌, ◌-◌, ◌<◌, Bool, true, ◌||◌, ◌&&◌, not, some, [], ◌∷◌, ◌++◌, leb, ◌==◌, length,
  get_elem?, ◌≡◌, ◌≢◌, ◌⊎◌, inl, inr, refl, arith, length-append, append_assoc, append-nil,
}
use go_imagefy.Text.{Text, drop, has_prefix}
use go_imagefy.Metadata.Words.{is_word_char, word_char_at, stands_alone}

-- The text ends at a boundary: it is empty, or its last rune is no letter and no digit.
abbrev pub ends_free : Text → Bool
ends_free [] = true
ends_free (c ∷ []) = not (is_word_char c)
ends_free (c ∷ d ∷ s) = ends_free (d ∷ s)

-- The text starts at a boundary.
abbrev pub starts_free : Text → Bool
starts_free [] = true
starts_free (c ∷ s) = not (is_word_char c)

-- `w` stands in `t` between boundaries of the whole text.
abbrev pub WordIn : Text → Text → Type 0
WordIn w t =
    (before after : Text) × (t ≡ before ++ (w ++ after))
    × (ends_free before ≡ true)
    × (starts_free after ≡ true)

word_char_at_last :
    (c : ℕ) (b r : Text) → not (word_char_at ((c ∷ b) ++ r) (length b)) ≡ ends_free (c ∷ b)
unfolding word_char_at
word_char_at_last c [] r = refl
word_char_at_last c (d ∷ b) r = word_char_at_last d b r

left-append :
    (b r : Text) → (length b == 0 || not (word_char_at (b ++ r) (length b - 1))) ≡ ends_free b
left-append [] r = refl
left-append (c ∷ b) r =
    let e : suc (length b) - 1 ≡ length b = omega arith in
    rw e (ground (arith, word_char_at_last c b r))

get_elem?-append : (b r : Text) (c : ℕ) → get_elem? (b ++ (c ∷ r)) (length b) ≡ some c
get_elem?-append [] r c = refl
get_elem?-append (d ∷ b) r c = get_elem?-append b r c

right-append :
    (b r : Text)
    → (leb (length (b ++ r)) (length b) || not (word_char_at (b ++ r) (length b))) ≡ starts_free r
unfolding word_char_at
right-append b [] = rw append-nil (ground arith)
right-append b (c ∷ r) = ground (arith, get_elem?-append b r c, length-append b (c ∷ r))

pub stands_alone-append :
    (before word after : Text)
    → stands_alone (before ++ (word ++ after)) word (length before)
      ≡ (ends_free before && starts_free after)
unfolding stands_alone
stands_alone-append before word after = cc (left-append before (word ++ after), right_part)
  where
    right_part :
        (leb (length (before ++ (word ++ after))) (length before + length word)
          || not (word_char_at (before ++ (word ++ after)) (length before + length word)))
        ≡ starts_free after
    right_part =
        rw (← append_assoc before word after, ← length-append before word)
          (right-append (before ++ word) after)

-- Two neighbouring runes of the word differ, so that it does not occur at two neighbouring places.
abbrev pub IsVaried : Text → Type 0
IsVaried [] = ⊥
IsVaried (c ∷ []) = ⊥
IsVaried (c ∷ d ∷ w) = (c ≢ d) ⊎ IsVaried (d ∷ w)

pub no_neighbours :
    (w : Text) (x : ℕ) (t : Text)
    → IsVaried w
    → has_prefix (x ∷ t) w ≡ true
    → has_prefix t w ≡ true
    → ⊥
unfolding has_prefix
no_neighbours [] x t v h k = v
no_neighbours (c ∷ []) x t v h k = v
no_neighbours (c ∷ d ∷ w) x [] v h k = cc
no_neighbours (c ∷ d ∷ w) x (y ∷ t) (inl ne) h k = ground arith
no_neighbours (c ∷ d ∷ w) x (y ∷ t) (inr v) h k =
    no_neighbours (d ∷ w) y t v (ground arith) (ground arith)

pub ends_free-append :
    (a : Text) (x : ℕ) (b : Text) → b ≢ [] → ends_free b ≡ true → ends_free (a ++ (x ∷ b)) ≡ true
ends_free-append [] x [] ne h = absurd (ne refl)
ends_free-append [] x (c ∷ b) ne h = h
ends_free-append (d ∷ []) x b ne h = ends_free-append [] x b ne h
ends_free-append (d ∷ e ∷ a) x b ne h = ends_free-append (e ∷ a) x b ne h

pub ends_free-drop : (n : ℕ) (b : Text) → ends_free b ≡ true → ends_free (drop n b) ≡ true
unfolding drop
ends_free-drop zero b h = h
ends_free-drop (suc n) [] h = h
ends_free-drop (suc zero) (c ∷ []) h = refl
ends_free-drop (suc (suc n)) (c ∷ []) h = refl
ends_free-drop (suc n) (c ∷ d ∷ b) h = ends_free-drop n (d ∷ b) h

pub drop-append-lt :
    (n : ℕ) (b r : Text) → n < length b → drop (suc n) (b ++ r) ≡ drop (suc n) b ++ r
unfolding drop
drop-append-lt n [] r h = absurd (omega arith)
drop-append-lt zero (c ∷ b) r h = refl
drop-append-lt (suc n) (c ∷ b) r h = drop-append-lt n b r (omega arith)
