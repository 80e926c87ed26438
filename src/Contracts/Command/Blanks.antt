-- ===== src/Contracts/Command/Blanks.antt =====
-- What trimming and joining blanks give, and which texts they leave alone.
use sttork.Base.{ℕ, ◌≡◌, refl, ◌≢◌, Bool, true, false, not, ◌&&◌, [], ◌∷◌, arith, if◌then◌else◌}
use sttork.Base.Text.{Text, has_control, is_control, is_space, trim_start, trim_end}
use sttork.Contracts.Command.{is_blank, replace_blanks}

abbrev pub starts_solid : Text → Bool
starts_solid [] = true
starts_solid (c ∷ s) = not (is_space c)

abbrev pub ends_solid : Text → Bool
ends_solid [] = true
ends_solid (c ∷ []) = not (is_space c)
ends_solid (c ∷ d ∷ s) = ends_solid (d ∷ s)

-- No two blanks meet, and none follows a blank just before.
abbrev pub single_blanks : Bool → Text → Bool
single_blanks before [] = true
single_blanks before (c ∷ s) = not (before && is_blank c) && single_blanks (is_blank c) s

pub trim_start-starts : (s : Text) → starts_solid (trim_start s) ≡ true
unfolding trim_start
trim_start-starts [] = refl
trim_start-starts (c ∷ s) = ground (arith, trim_start-starts s)

pub trim_end-starts : (s : Text) → starts_solid s ≡ true → starts_solid (trim_end s) ≡ true
unfolding trim_end
trim_end-starts [] h = refl
trim_end-starts (c ∷ s) h = ground arith

pub trim_end-ends : (s : Text) → ends_solid (trim_end s) ≡ true
unfolding trim_end
trim_end-ends [] = refl
trim_end-ends (c ∷ s) = ground (arith, trim_end-ends s)

pub trim_start-control : (s : Text) → has_control s ≡ false → has_control (trim_start s) ≡ false
unfolding trim_start
trim_start-control [] h = refl
trim_start-control (c ∷ s) h = ground (arith, trim_start-control s)

pub trim_end-control : (s : Text) → has_control s ≡ false → has_control (trim_end s) ≡ false
unfolding trim_end
trim_end-control [] h = refl
trim_end-control (c ∷ s) h = ground (arith, trim_end-control s)

space-control : is_control 32 ≡ false
unfolding is_control
space-control = refl

pub replace-control :
    (r : Bool) (s : Text) → has_control s ≡ false → has_control (replace_blanks r s) ≡ false
unfolding replace_blanks
replace-control r [] h = refl
replace-control r (c ∷ s) h = ground (arith, replace-control (is_blank c) s, space-control)

blank-space : (c : ℕ) → is_blank c ≡ true → is_space c ≡ true
unfolding is_blank is_space
blank-space c h = ground arith

pub replace-starts :
    (s : Text) → starts_solid s ≡ true → starts_solid (replace_blanks false s) ≡ true
unfolding replace_blanks
replace-starts [] h = refl
replace-starts (c ∷ s) h = ground (arith, blank-space c)

replace-nonempty :
    (r : Bool) (c : ℕ) (s : Text) → ends_solid (c ∷ s) ≡ true → replace_blanks r (c ∷ s) ≢ []
unfolding replace_blanks
replace-nonempty r c [] h = ground (arith, blank-space c)
replace-nonempty r c (d ∷ s) h = ground (arith, replace-nonempty (is_blank c) d s)

ends-cons : (c : ℕ) (s : Text) → ends_solid s ≡ true → s ≢ [] → ends_solid (c ∷ s) ≡ true
ends-cons c [] h n = absurd (n refl)
ends-cons c (d ∷ s) h n = h

join-ends :
    (r blank : Bool) (c : ℕ) (rest : Text)
    → ends_solid rest ≡ true
    → rest ≢ []
    → ends_solid (if blank then (if r then rest else 32 ∷ rest) else c ∷ rest) ≡ true
join-ends true true c rest h n = h
join-ends false true c rest h n = ends-cons 32 rest h n
join-ends _ false c rest h n = ends-cons c rest h n

pub replace-ends :
    (r : Bool) (s : Text) → ends_solid s ≡ true → ends_solid (replace_blanks r s) ≡ true
unfolding replace_blanks
replace-ends r [] h = refl
replace-ends r (c ∷ []) h = ground (arith, blank-space c)
replace-ends r (c ∷ d ∷ s) h =
    join-ends r (is_blank c) c (replace_blanks (is_blank c) (d ∷ s))
      (replace-ends (is_blank c) (d ∷ s) h) (replace-nonempty (is_blank c) d s h)

blank-32 : is_blank 32 ≡ true
unfolding is_blank
blank-32 = refl

pub replace-single : (r : Bool) (s : Text) → single_blanks r (replace_blanks r s) ≡ true
unfolding replace_blanks
replace-single r [] = refl
replace-single r (c ∷ s) = ground (arith, replace-single (is_blank c) s, blank-32)

control-blank : (c : ℕ) → is_control c ≡ false → is_blank c ≡ true → c ≡ 32
unfolding is_control is_blank
control-blank c h b = ground arith

pub replace-fixed :
    (r : Bool) (s : Text)
    → has_control s ≡ false
    → single_blanks r s ≡ true
    → replace_blanks r s ≡ s
unfolding replace_blanks
replace-fixed r [] h b = refl
replace-fixed r (c ∷ s) h b = ground (arith, replace-fixed (is_blank c) s, control-blank c)

pub trim_start-fixed : (s : Text) → starts_solid s ≡ true → trim_start s ≡ s
unfolding trim_start
trim_start-fixed [] h = refl
trim_start-fixed (c ∷ s) h = ground arith

pub trim_end-fixed : (s : Text) → ends_solid s ≡ true → trim_end s ≡ s
unfolding trim_end
trim_end-fixed [] h = refl
trim_end-fixed (c ∷ []) h = ground arith
trim_end-fixed (c ∷ d ∷ s) h = rw (trim_end-fixed (d ∷ s) h)
