-- ===== src/Text/Words.antt =====
-- `split_whitespace` and `join(" ")` against one another.
use speakeasy_granite_rust_m.Base.{
  ℕ, ◌≡◌, ◌≢◌, ◌⊎◌, inl, inr, refl, sym, ap, ◌∙◌, true, false, List, [], ◌∷◌, ◌++◌, append_assoc,
  append-nil, arith, All, Bool-cases,
}
use speakeasy_granite_rust_m.Text.{
  Text, is_whitespace, is_blank, flush, words_from, split_whitespace, join_words,
}

-- A word is not empty and holds no whitespace.
abbrev pub Solid : Text → Type 0
Solid = All (λ c. is_whitespace c ≡ false)

abbrev pub IsWord : Text → Type 0
IsWord w = (w ≢ []) × Solid w

Solid-concat : (w : Text) (c : ℕ) → Solid w → is_whitespace c ≡ false → Solid (w ++ c ∷ [])
Solid-concat [] c h k = (k, tt)
Solid-concat (d ∷ w) c (h, t) k = (h, Solid-concat w c t k)

flush-IsWord : (cur : Text) (ws : List Text) → Solid cur → All IsWord ws → All IsWord (flush cur ws)
flush-IsWord [] ws h k = k
flush-IsWord (c ∷ cur) ws h k = (((λ e. cc), h), k)

words_from-IsWord : (cur s : Text) → Solid cur → All IsWord (words_from cur s)
unfolding words_from
words_from-IsWord cur [] h = flush-IsWord cur [] h tt
words_from-IsWord cur (c ∷ s) h = elim (Bool-cases (is_whitespace c)) [
  | inl e ↦ rw e (flush-IsWord cur (words_from [] s) h (words_from-IsWord [] s tt))
  | inr e ↦ rw e (words_from-IsWord (cur ++ c ∷ []) s (Solid-concat cur c h e))
]

pub split_whitespace-IsWord : (s : Text) → All IsWord (split_whitespace s)
unfolding split_whitespace
split_whitespace-IsWord s = words_from-IsWord [] s tt

-- A solid prefix joins the word being read.
words_from-append : (cur w s : Text) → Solid w → words_from cur (w ++ s) ≡ words_from (cur ++ w) s
unfolding words_from
words_from-append cur [] s h = rw append-nil
words_from-append cur (c ∷ w) s (h, t) = rw h (
    words_from-append (cur ++ c ∷ []) w s t
    ∙ ap (λ x. words_from x s) (append_assoc cur (c ∷ []) w))

words_from_space : (w : Text) (s : Text) → words_from w (0x20 ∷ s) ≡ flush w (words_from [] s)
unfolding words_from is_whitespace
words_from_space w s = refl

flush_word : (w : Text) (ws : List Text) → w ≢ [] → flush w ws ≡ w ∷ ws
flush_word [] ws h = absurd (h refl)
flush_word (c ∷ w) ws h = refl

-- Splitting what was joined gives the words back.
pub split_whitespace-join_words :
    (ws : List Text) → All IsWord ws → split_whitespace (join_words ws) ≡ ws
unfolding split_whitespace join_words
split_whitespace-join_words [] h = refl
split_whitespace-join_words (w ∷ []) ((n, h), t) =
    ap (words_from []) (sym (append-nil w)) ∙ words_from-append [] w [] h ∙ flush_word w [] n
split_whitespace-join_words (w ∷ v ∷ ws) ((n, h), t) =
    words_from-append [] w (0x20 ∷ join_words (v ∷ ws)) h
    ∙ words_from_space w (join_words (v ∷ ws))
    ∙ flush_word w (words_from [] (join_words (v ∷ ws))) n
    ∙ ap (λ x. w ∷ x) (split_whitespace-join_words (v ∷ ws) t)

flush-ne-nil : (cur : Text) (ws : List Text) → cur ≢ [] → flush cur ws ≢ []
flush-ne-nil [] ws h = absurd (h refl)
flush-ne-nil (c ∷ cur) ws h = λ e. cc

flush-ne-nil_tail : (cur : Text) (ws : List Text) → ws ≢ [] → flush cur ws ≢ []
flush-ne-nil_tail [] ws h = h
flush-ne-nil_tail (c ∷ cur) ws h = λ e. cc

concat-ne-nil : (cur : Text) (c : ℕ) → cur ++ c ∷ [] ≢ []
concat-ne-nil [] c e = cc
concat-ne-nil (d ∷ cur) c e = cc

words_from-ne-nil : (cur s : Text) → (cur ≢ []) ⊎ (is_blank s ≡ false) → words_from cur s ≢ []
unfolding words_from is_blank
words_from-ne-nil cur [] (inl h) = flush-ne-nil cur [] h
words_from-ne-nil cur [] (inr h) = cc
words_from-ne-nil cur (c ∷ s) h = elim (Bool-cases (is_whitespace c)) [
  | inl e ↦ rw e (elim h [
    | inl k ↦ flush-ne-nil cur (words_from [] s) k
    | inr k ↦ flush-ne-nil_tail cur (words_from [] s) (words_from-ne-nil [] s (inr (rw e at k)))
  ])
  | inr e ↦ rw e (words_from-ne-nil (cur ++ c ∷ []) s (inl (concat-ne-nil cur c)))
]

words_from_blank : (s : Text) → is_blank s ≡ true → words_from [] s ≡ []
unfolding words_from is_blank
words_from_blank [] h = refl
words_from_blank (c ∷ s) h = ground (arith, words_from_blank s)

-- Only a blank text has no words.
pub split_whitespace-nil :
    (s : Text)
    → (is_blank s ≡ true → split_whitespace s ≡ []) × (is_blank s ≡ false → split_whitespace s ≢ [])
unfolding split_whitespace
split_whitespace-nil s = (words_from_blank s, λ h. words_from-ne-nil [] s (inr h))
