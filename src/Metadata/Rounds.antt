-- ===== src/Metadata/Rounds.antt =====
-- The rounds of the loop in `containsWord`, its termination, and what it answers.
use native.Mathlib.Numerals.{add-one}
use go_imagefy.Prelude.{
  ℕ, zero, suc, ◌<◌, ◌≤◌, Bool, true, false, ◌&&◌, some, none, [], ◌∷◌, ◌++◌, length, ◌≡◌, ◌↔◌, inl,
  inr, sym, ap, subst, arith, append_assoc, Bool-cases, Option-cases, ◌∙◌, and-eq-true_iff, ltb,
  ltb→lt,
}
use go_imagefy.Text.{Text, index, drop, has_prefix}
use go_imagefy.Text.Index.{index_sound, index-le, drop-suc-append}
use go_imagefy.Text.Search.{has_prefix-append}
use go_imagefy.Metadata.Words.{stands_alone, word_loop, contains_word}
use go_imagefy.Metadata.Boundaries.{
  WordIn, IsVaried, ends_free, starts_free, no_neighbours, ends_free-append, stands_alone-append,
  ends_free-drop, drop-append-lt,
}

module _ (f : ℕ) (t w : Text) where
  round_none : index t w ≡ none → word_loop (suc f) t w ≡ some false
  unfolding word_loop
  round_none e = rw (e, word_loop)

  round_alone :
      (n : ℕ) → index t w ≡ some n → stands_alone t w n ≡ true → word_loop (suc f) t w ≡ some true
  unfolding word_loop
  round_alone n e h = rw (e, word_loop, h)

  round_next :
      (n : ℕ)
      → index t w ≡ some n
      → stands_alone t w n ≡ false
      → word_loop (suc f) t w ≡ word_loop f (drop (suc n) t) w
  unfolding word_loop
  round_next n e h = rw (e, word_loop, h, add-one)

length-drop-le : (n : ℕ) (s : Text) → length (drop n s) ≤ length s
unfolding drop
length-drop-le zero s = omega arith
length-drop-le (suc n) [] = omega arith
length-drop-le (suc n) (c ∷ s) = omega (arith, length-drop-le n s)

length-drop-lt : (n : ℕ) (c : ℕ) (s : Text) → length (drop (suc n) (c ∷ s)) ≤ length s
unfolding drop
length-drop-lt n c s = length-drop-le n s

stands_alone-nil : (w : Text) → stands_alone [] w 0 ≡ true
unfolding stands_alone
stands_alone-nil w = ground arith

index-nil : (w : Text) (n : ℕ) → index [] w ≡ some n → n ≡ 0
unfolding index
index-nil w n e = ground arith

shorter :
    (f : ℕ) (t w : Text) (n : ℕ)
    → index t w ≡ some n
    → stands_alone t w n ≡ false
    → length t < suc f
    → length (drop (suc n) t) < f
shorter f [] w n e other lt =
    let at_start = subst (λ k. stands_alone [] w k ≡ false) (index-nil w n e) other in
    cc (stands_alone-nil w, at_start)
shorter f (c ∷ s) w n e other lt = omega (arith, length-drop-lt n c s)

-- The loop ends: every round that goes on drops a rune.
pub word_loop_total : (f : ℕ) (t w : Text) → length t < f → (b : Bool) × (word_loop f t w ≡ some b)
word_loop_total zero t w h = absurd (omega arith)
word_loop_total (suc f) t w h = elim (Option-cases (index t w)) [
  | inl e ↦ (false, round_none f t w e)
  | inr (n, e) ↦ elim (Bool-cases (stands_alone t w n)) [
    | inl alone ↦ (true, round_alone f t w n e alone)
    | inr other ↦
        let (b, r) = word_loop_total f (drop (suc n) t) w (shorter f t w n e other h) in
        (b, round_next f t w n e other ∙ r)
  ]
]

-- An occurrence in what follows the rune at the first occurrence is one in the whole text.
later_occurrence :
    (before : Text) (c : ℕ) (w after b' a' : Text)
    → IsVaried (c ∷ w)
    → w ++ after ≡ b' ++ ((c ∷ w) ++ a')
    → ends_free b' ≡ true
    → ends_free (before ++ (c ∷ b')) ≡ true
later_occurrence before c w after [] a' v e free = absurd (
    no_neighbours (c ∷ w) c (w ++ after) v (has_prefix-append (c ∷ w) after)
      (subst (λ t. has_prefix t (c ∷ w) ≡ true) (sym e) (has_prefix-append (c ∷ w) a')))
later_occurrence before c w after (x ∷ b') a' v e free =
    ends_free-append before c (x ∷ b') (λ h. cc) free

alone_at :
    (t w before after : Text) (n : ℕ)
    → t ≡ before ++ (w ++ after)
    → length before ≡ n
    → stands_alone t w n ≡ (ends_free before && starts_free after)
alone_at t w before after n split len = rw (split, ← len) (stands_alone-append before w after)

rest_at :
    (t before after : Text) (c : ℕ) (w : Text) (n : ℕ)
    → t ≡ before ++ ((c ∷ w) ++ after)
    → length before ≡ n
    → drop (suc n) t ≡ w ++ after
rest_at t before after c w n split len = rw (split, ← len) (drop-suc-append before c (w ++ after))

pub word_loop_sound : (f : ℕ) (t w : Text) → IsVaried w → word_loop f t w ≡ some true → WordIn w t
word_loop_sound zero t w v h = unfold word_loop in cc
word_loop_sound (suc f) t [] v h = absurd v
word_loop_sound (suc f) t (c ∷ w) v h = elim (Option-cases (index t (c ∷ w))) [
  | inl e ↦ cc (round_none f t (c ∷ w) e)
  | inr (n, e) ↦
      let (before, after, split, len) = index_sound t (c ∷ w) n e in
      let free_ends = alone_at t (c ∷ w) before after n split len in
      elim (Bool-cases (stands_alone t (c ∷ w) n)) [
        | inl alone ↦
            let (left, right) = (and-eq-true_iff _ _).0 (sym free_ends ∙ alone) in
            (before, after, split, left, right)
        | inr other ↦
            let again = sym (round_next f t (c ∷ w) n e other) ∙ h in
            let (b', a', e', free, start) = word_loop_sound f (drop (suc n) t) (c ∷ w) v again in
            let rest = sym (rest_at t before after c w n split len) ∙ e' in
            (
              before ++ (c ∷ b'),
              a',
              split ∙ ap (λ r. before ++ (c ∷ r)) rest ∙ sym (append_assoc before (c ∷ b') _),
              later_occurrence before c w after b' a' v rest free,
              start,
            )
      ]
]

pub word_loop_complete :
    (f : ℕ) (t w : Text) → length t < f → WordIn w t → word_loop f t w ≡ some true
word_loop_complete zero t w h o = absurd (omega arith)
word_loop_complete (suc f) t w h (before, after, split, left, right) =
    let (n, found, le) = index-le before w after in
    let e : index t w ≡ some n = rw split found in
    elim (Bool-cases (stands_alone t w n)) [
      | inl alone ↦ round_alone f t w n e alone
      | inr other ↦ elim (Bool-cases (ltb n (length before))) [
        | inl lt ↦
            let inside = ltb→lt n (length before) lt in
            round_next f t w n e other
            ∙ word_loop_complete f (drop (suc n) t) w (shorter f t w n e other h) (
              drop (suc n) before,
              after,
              rw split (drop-append-lt n before (w ++ after) inside),
              ends_free-drop (suc n) before left,
              right,
            )
        | inr ge ↦
            let here : length before ≡ n = ground arith in
            cc (alone_at t w before after n split here, left, right)
      ]
    ]

-- For a word that has two different neighbouring runes, `containsWord` answers yes exactly when the
-- word stands between two boundaries of the text.
pub contains_word_iff : (t w : Text) → IsVaried w → (contains_word t w ≡ true) ↔ WordIn w t
unfolding contains_word
contains_word_iff t w v =
    let (b, e) = word_loop_total (suc (length t)) t w (omega arith) in
    (
      (λ h. word_loop_sound (suc (length t)) t w v (ground arith)),
      λ o. ground (arith, word_loop_complete (suc (length t)) t w (omega arith) o),
    )
