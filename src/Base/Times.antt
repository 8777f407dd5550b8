-- ===== src/Base/Times.antt =====
-- Lists of times in order, and the part of such a list that lies in a window.
use Prim.Native.Nat.{ℕ, ◌-◌, ◌≤◌}
use mathlib.Core.Path.{◌≡◌, refl}
use mathlib.Core.List.{List, [], ◌∷◌, ◌++◌}
use native.Mathlib.Omega.{arith}
use blazelog.Base.Tests.{ltb, if◌then◌else◌}

-- The times rise along the list, from `lo` on.
abbrev pub Above : ℕ → List ℕ → Type 0
Above lo [] = Unit {0}
Above lo (t ∷ ts) = (lo ≤ t) × Above t ts

-- The events that are not before the cutoff.
abbrev pub in_window : ℕ → List ℕ → List ℕ
in_window cutoff [] = []
in_window cutoff (t ∷ ts) =
    let rest = in_window cutoff ts in if ltb t cutoff then rest else t ∷ rest

pub in_window_all :
    (cutoff lo : ℕ) (ts : List ℕ) → Above lo ts → cutoff ≤ lo → in_window cutoff ts ≡ ts
in_window_all cutoff lo [] a h = refl
in_window_all cutoff lo (t ∷ ts) a h = ground (arith, in_window_all cutoff t ts a.1)

abbrev pub AtMost : ℕ → List ℕ → Type 0
AtMost now [] = Unit {0}
AtMost now (t ∷ ts) = (t ≤ now) × AtMost now ts

pub in_window-append :
    (c : ℕ) (xs ys : List ℕ) → in_window c (xs ++ ys) ≡ in_window c xs ++ in_window c ys
in_window-append c [] ys = refl
in_window-append c (x ∷ xs) ys = ground (arith, in_window-append c xs ys)

pub in_window-in_window :
    (c d : ℕ) (ts : List ℕ) → c ≤ d → in_window d (in_window c ts) ≡ in_window d ts
in_window-in_window c d [] h = refl
in_window-in_window c d (t ∷ ts) h = ground (arith, in_window-in_window c d ts h)

pub Above-mono : (lo lo' : ℕ) (ts : List ℕ) → lo ≤ lo' → Above lo' ts → Above lo ts
Above-mono lo lo' [] h a = tt
Above-mono lo lo' (t ∷ ts) h a = (omega arith, a.1)

pub Above-in_window : (lo c : ℕ) (ts : List ℕ) → Above lo ts → Above lo (in_window c ts)
Above-in_window lo c [] a = tt
Above-in_window lo c (t ∷ ts) a =
    ground (arith, Above-in_window t c ts a.1, Above-mono lo t (in_window c ts) a.0)

pub Above-snoc :
    (lo t : ℕ) (ts : List ℕ) → lo ≤ t → Above lo ts → AtMost t ts → Above lo (ts ++ t ∷ [])
Above-snoc lo t [] h a m = (h, tt)
Above-snoc lo t (x ∷ ts) h a m = (a.0, Above-snoc x t ts m.0 a.1 m.1)

pub AtMost-snoc : (now t : ℕ) (ts : List ℕ) → now ≤ t → AtMost now ts → AtMost t (ts ++ t ∷ [])
AtMost-snoc now t [] h m = (omega arith, tt)
AtMost-snoc now t (x ∷ ts) h m = (omega arith, AtMost-snoc now t ts h m.1)

pub AtMost-mono : (now t : ℕ) (ts : List ℕ) → now ≤ t → AtMost now ts → AtMost t ts
AtMost-mono now t [] h m = tt
AtMost-mono now t (x ∷ ts) h m = (omega arith, AtMost-mono now t ts h m.1)

pub in_window_last : (t d : ℕ) → in_window (t - d) (t ∷ []) ≡ t ∷ []
in_window_last t d = ground arith
