-- ===== src/Audio/Format/Preferred.antt =====
-- What the preference asks for, and that the chosen format is the best by it.
use speakeasy_granite_rust_m.Base.{
  ◌-◌, ltb, Option, none, some, refl, sym, ◌∙◌, ℕ, ◌<◌, ◌≡◌, Bool, true, false, ◌&&◌, ◌==◌, List,
  [], ◌∷◌, ◌++◌, ◌⊎◌, ◌↔◌, inl, inr, if◌then◌else◌, Result, ok, err, arith, All,
}
use mathlib.Core.Path.{subst}
use speakeasy_granite_rust_m.Audio.Ring.{
  NativeStreamConfig, NativeSampleFormat, f32, i16, u16, same_format,
}
use speakeasy_granite_rust_m.Audio.Format.{
  NativeStreamCandidate, NegotiationPreference, NegotiationError, rate_rank, candidate_rank, less,
  ranks_before, negotiate_native_format,
}
use speakeasy_granite_rust_m.Audio.Format.Best.{IsFirstOf, negotiate-IsFirst}

-- Better by a first criterion, or equal by it and better by the rest.
abbrev Lex : Type 0 → Type 0 → Type 0 → Type 0
Lex better equal rest = better ⊎ (equal × rest)

-- The first has a property that the second has not.
abbrev OnlyFirst : Bool → Bool → Type 0
OnlyFirst a b = (a ≡ true) × (b ≡ false)

abbrev wanted : NegotiationPreference → NativeStreamCandidate → Bool
wanted p c = same_format p.sample_format c.config.sample_format

-- The candidate has the preferred sample format.
abbrev Wanted : NegotiationPreference → NativeStreamCandidate → Type 0
Wanted p c = p.sample_format ≡ c.config.sample_format

-- How far a rate is from the preferred one; nothing, if there is none.
abbrev distance : ℕ → ℕ → ℕ
distance preferred rate = if ltb rate preferred then preferred - rate else rate - preferred

abbrev away_from : Option ℕ → ℕ → ℕ
away_from none rate = 0
away_from (some preferred) rate = distance preferred rate

abbrev away : NegotiationPreference → NativeStreamCandidate → ℕ
away p c = away_from p.preferred_sample_rate_hz c.config.sample_rate_hz

-- Fewer channels; then the default of the device; then the rate nearer to the preferred one, if one
-- is; then the preferred sample format; then the lower rate.
abbrev pub Better : NegotiationPreference → NativeStreamCandidate → NativeStreamCandidate → Type 0
Better p c d = Lex (c.config.channels < d.config.channels) (c.config.channels ≡ d.config.channels) (
    Lex (OnlyFirst c.is_device_default d.is_device_default)
      (c.is_device_default ≡ d.is_device_default)
      (Lex (away p c < away p d) (away p c ≡ away p d) (
        Lex (Wanted p c × ¬ (Wanted p d)) (Wanted p c ↔ Wanted p d)
          (c.config.sample_rate_hz < d.config.sample_rate_hz))))

less-Lex :
    (x y : ℕ) (xs ys : List ℕ)
    → (less (x ∷ xs) (y ∷ ys) ≡ true) ↔ Lex (x < y) (x ≡ y) (less xs ys ≡ true)
unfolding less
less-Lex x y xs ys = (λ h. ground arith, λ h. ground arith)

Lex-map : {A B C A' B' C' : Type 0} → (A ↔ A') → (B ↔ B') → (C ↔ C') → (Lex A B C ↔ Lex A' B' C')
Lex-map f g h = (
  λ x. elim x [ inl a ↦ inl (f.0 a) | inr (b, c) ↦ inr (g.0 b, h.0 c) ],
  λ x. elim x [ inl a ↦ inl (f.1 a) | inr (b, c) ↦ inr (g.1 b, h.1 c) ],
)

trans : {A B C : Type 0} → (A ↔ B) → (B ↔ C) → (A ↔ C)
trans f g = (λ x. g.0 (f.0 x), λ x. f.1 (g.1 x))

-- The rank of a flag that should be on.
abbrev flag : Bool → ℕ
flag a = if a then 0 else 1

flag_less : (a b : Bool) → (flag a < flag b) ↔ OnlyFirst a b
flag_less a b = (λ h. ground arith, λ h. ground arith)

flag_equal : (a b : Bool) → (flag a ≡ flag b) ↔ (a ≡ b)
flag_equal a b = (λ h. ground arith, λ h. ground arith)

-- The rank of one channel is 0, and there is no smaller number of channels, so it changes no order.
abbrev channel_rank : Bool → ℕ → ℕ
channel_rank mono n = if mono && n == 1 then 0 else n

channel_less :
    (mono : Bool) (m n : ℕ) → 0 < m → 0 < n → (channel_rank mono m < channel_rank mono n) ↔ (m < n)
channel_less mono m n a b = (λ h. ground arith, λ h. ground arith)

channel_equal :
    (mono : Bool) (m n : ℕ) → 0 < m → 0 < n → (channel_rank mono m ≡ channel_rank mono n) ↔ (m ≡ n)
channel_equal mono m n a b = (λ h. ground arith, λ h. ground arith)

-- The rank of a rate is how far it is from the preferred one.
rate_rank-eq-away_from :
    (preferred : Option ℕ) (rate : ℕ) → rate_rank preferred rate ≡ away_from preferred rate
rate_rank-eq-away_from none rate = refl
rate_rank-eq-away_from (some preferred) rate = ground arith

abbrev rank_away : NegotiationPreference → NativeStreamCandidate → ℕ
rank_away p c = rate_rank p.preferred_sample_rate_hz c.config.sample_rate_hz

rate_less :
    (p : NegotiationPreference) (c d : NativeStreamCandidate)
    → (rank_away p c < rank_away p d) ↔ (away p c < away p d)
rate_less p c d =
    let e = rate_rank-eq-away_from p.preferred_sample_rate_hz c.config.sample_rate_hz in
    let f = rate_rank-eq-away_from p.preferred_sample_rate_hz d.config.sample_rate_hz in
    (λ h. omega arith, λ h. omega arith)

rate_equal :
    (p : NegotiationPreference) (c d : NativeStreamCandidate)
    → (rank_away p c ≡ rank_away p d) ↔ (away p c ≡ away p d)
rate_equal p c d =
    let e = rate_rank-eq-away_from p.preferred_sample_rate_hz c.config.sample_rate_hz in
    let f = rate_rank-eq-away_from p.preferred_sample_rate_hz d.config.sample_rate_hz in
    (λ h. omega arith, λ h. omega arith)

same_format_cases :
    (f g : NativeSampleFormat)
    → ((same_format f g ≡ true) × (f ≡ g)) ⊎ ((same_format f g ≡ false) × ¬ (f ≡ g))
same_format_cases f32 f32 = inl (refl, refl)
same_format_cases i16 i16 = inl (refl, refl)
same_format_cases u16 u16 = inl (refl, refl)
same_format_cases f32 i16 = inr (refl, λ e. cc)
same_format_cases f32 u16 = inr (refl, λ e. cc)
same_format_cases i16 f32 = inr (refl, λ e. cc)
same_format_cases i16 u16 = inr (refl, λ e. cc)
same_format_cases u16 f32 = inr (refl, λ e. cc)
same_format_cases u16 i16 = inr (refl, λ e. cc)

-- A flag that says what a type says.
Says : Bool → Type 0 → Type 0
Says b A = ((b ≡ true) × A) ⊎ ((b ≡ false) × ¬ A)

says_only : {a b : Bool} {A B : Type 0} → Says a A → Says b B → OnlyFirst a b ↔ (A × ¬ B)
unfolding Says
says_only (inl (e, x)) (inl (f, y)) = (λ h. cc, λ h. absurd (h.1 y))
says_only (inl (e, x)) (inr (f, y)) = (λ h. (x, y), λ h. (e, f))
says_only (inr (e, x)) (inl (f, y)) = (λ h. cc, λ h. absurd (x h.0))
says_only (inr (e, x)) (inr (f, y)) = (λ h. cc, λ h. absurd (x h.0))

says_equal : {a b : Bool} {A B : Type 0} → Says a A → Says b B → (a ≡ b) ↔ (A ↔ B)
unfolding Says
says_equal (inl (e, x)) (inl (f, y)) = (λ h. (λ z. y, λ z. x), λ h. e ∙ sym f)
says_equal (inl (e, x)) (inr (f, y)) = (λ h. cc, λ h. absurd (y (h.0 x)))
says_equal (inr (e, x)) (inl (f, y)) = (λ h. cc, λ h. absurd (x (h.1 y)))
says_equal (inr (e, x)) (inr (f, y)) = (λ h. (λ z. absurd (x z), λ z. absurd (y z)), λ h. e ∙ sym f)

wanted-Says :
    (p : NegotiationPreference) (c : NativeStreamCandidate) → Says (wanted p c) (Wanted p c)
unfolding Says
wanted-Says p c = same_format_cases p.sample_format c.config.sample_format

last_less : (x y : ℕ) → (less (x ∷ []) (y ∷ []) ≡ true) ↔ (x < y)
unfolding less
last_less x y = (λ h. ground arith, λ h. ground arith)

abbrev HasChannels : NativeStreamCandidate → Type 0
HasChannels c = 0 < c.config.channels

module _ (p : NegotiationPreference) where
  -- The rank of a candidate from its fourth, its third and its second part on.
  abbrev from_format : NativeStreamCandidate → List ℕ
  from_format c = flag (wanted p c) ∷ c.config.sample_rate_hz ∷ []

  abbrev from_distance : NativeStreamCandidate → List ℕ
  from_distance c = rank_away p c ∷ from_format c

  abbrev from_default : NativeStreamCandidate → List ℕ
  from_default c = flag c.is_device_default ∷ from_distance c

  ranks_before_iff :
      (c d : NativeStreamCandidate)
      → HasChannels c
      → HasChannels d
      → (ranks_before p c d ≡ true) ↔ Better p c d
  unfolding ranks_before candidate_rank
  ranks_before_iff c d a b = trans (less-Lex _ _ (from_default c) (from_default d)) (
      Lex-map (channel_less p.prefer_mono c.config.channels d.config.channels a b)
        (channel_equal p.prefer_mono c.config.channels d.config.channels a b)
        (trans (less-Lex _ _ (from_distance c) (from_distance d)) (
          Lex-map (flag_less c.is_device_default d.is_device_default)
            (flag_equal c.is_device_default d.is_device_default)
            (trans (less-Lex _ _ (from_format c) (from_format d)) (
              Lex-map (rate_less p c d) (rate_equal p c d) (
                trans (less-Lex _ _ (c.config.sample_rate_hz ∷ []) (d.config.sample_rate_hz ∷ [])) (
                  Lex-map
                    (trans (flag_less (wanted p c) (wanted p d))
                      (says_only (wanted-Says p c) (wanted-Says p d)))
                    (trans (flag_equal (wanted p c) (wanted p d))
                      (says_equal (wanted-Says p c) (wanted-Says p d)))
                    (last_less _ _))))))))

  -- It stands in the list, is better than each before it, and none after it is better.
  abbrev pub IsBest : List NativeStreamCandidate → NativeStreamCandidate → Type 0
  IsBest cs c =
      (before : List NativeStreamCandidate) × (after : List NativeStreamCandidate) × (cs
        ≡ before ++ c ∷ after)
      × All (λ d. Better p c d) before
      × All (λ d. ¬ (Better p d c)) after

  abbrev pub IsChoice :
      List NativeStreamCandidate → Result NegotiationError NativeStreamConfig → Type 0
  IsChoice cs (err e) = cs ≡ []
  IsChoice cs (ok config) = (c : NativeStreamCandidate) × (c.config ≡ config) × IsBest cs c

  Better-all :
      (c : NativeStreamCandidate) (ds : List NativeStreamCandidate)
      → HasChannels c
      → All HasChannels ds
      → All (λ d. ranks_before p c d ≡ true) ds
      → All (λ d. Better p c d) ds
  Better-all c [] a b h = tt
  Better-all c (d ∷ ds) a (b, bs) (h, hs) =
      ((ranks_before_iff c d a b).0 h, Better-all c ds a bs hs)

  true-false : {x : Bool} → x ≡ true → x ≡ false → ⊥
  true-false h k = cc

  none-Better :
      (c : NativeStreamCandidate) (ds : List NativeStreamCandidate)
      → HasChannels c
      → All HasChannels ds
      → All (λ d. ranks_before p d c ≡ false) ds
      → All (λ d. ¬ (Better p d c)) ds
  none-Better c [] a b h = tt
  none-Better c (d ∷ ds) a (b, bs) (h, hs) =
      (λ k. true-false ((ranks_before_iff d c b a).1 k) h, none-Better c ds a bs hs)

  parts :
      (before after : List NativeStreamCandidate) (c : NativeStreamCandidate)
      → All HasChannels (before ++ c ∷ after)
      → All HasChannels before × HasChannels c × All HasChannels after
  parts [] after c (a, b) = (tt, a, b)
  parts (d ∷ before) after c (a, b) = let (x, y, z) = parts before after c b in ((a, x), y, z)

  -- Of candidates with at least one channel, the one chosen is better than each before it and none
  -- after it is better: by fewer channels, then as the default of the device, then by the nearer rate,
  -- then by the preferred sample format, then by the lower rate. Whether mono is preferred does not
  -- matter. None is chosen only when there is no candidate.
  pub negotiate-IsChoice :
      (cs : List NativeStreamCandidate)
      → All HasChannels cs
      → IsChoice cs (negotiate_native_format cs p)
  negotiate-IsChoice cs a = go (negotiate_native_format cs p) (negotiate-IsFirst p cs)
    where
      go : (o : Result NegotiationError NativeStreamConfig) → IsFirstOf p cs o → IsChoice cs o
      go (err e) h = h
      go (ok config) (c, e, (before, after, f, x, y)) =
          let (l, m, r) = parts before after c (subst (All HasChannels) f a) in
          (c, e, (before, after, f, Better-all c before m l x, none-Better c after m r y))
