-- ===== src/Order/Text.antt =====
-- The order of texts: by code points, which for UTF-8 is the order of bytes.
use Prim.Native.Nat.{compare, Ordering}
use Prim.Native.Nat.Ordering.{lt, eq, gt}
use Prim.Native.Char.{code}
use Prim.Native.String.{compare as compare_text, then}
use Prim.Native.String.compare.{nil-cons, cons-nil, cons-cons}
use text.Mathlib.TextEquality.{path_by_compare}
use text.Mathlib.TextPositions.{compare_refl}
use coverage_mcp.Prelude.{String, ◌≡◌, refl, arith}

abbrev pub flip : Ordering → Ordering
flip lt = gt
flip eq = eq
flip gt = lt

pub text_self : (s : String) → compare_text s s ≡ eq
text_self = compare_refl

pub text_eq : (s t : String) → compare_text s t ≡ eq → s ≡ t
text_eq = path_by_compare

no_text_before_empty : (t : String) → ¬ (compare_text t String.[] ≡ lt)
no_text_before_empty String.[] h = ground arith
no_text_before_empty (String.◌∷◌ c t) h = ground (arith, cons-nil c t)

pub text_flip : (s t : String) → compare_text s t ≡ flip (compare_text t s)
text_flip String.[] String.[] = refl
text_flip String.[] (String.◌∷◌ d t) = rw (nil-cons d t, cons-nil d t)
text_flip (String.◌∷◌ c s) String.[] = rw (nil-cons c s, cons-nil c s)
text_flip (String.◌∷◌ c s) (String.◌∷◌ d t) =
    rw (cons-cons c d s t, cons-cons d c t s) (ground (arith, text_flip s t))

pub text_trans :
    (s t u : String) → compare_text s t ≡ lt → compare_text t u ≡ lt → compare_text s u ≡ lt
text_trans String.[] t String.[] h k = absurd (no_text_before_empty t k)
text_trans String.[] t (String.◌∷◌ e u) h k = nil-cons e u
text_trans (String.◌∷◌ c s) String.[] u h k = absurd (no_text_before_empty (String.◌∷◌ c s) h)
text_trans (String.◌∷◌ c s) (String.◌∷◌ d t) String.[] h k =
    absurd (no_text_before_empty (String.◌∷◌ d t) k)
text_trans (String.◌∷◌ c s) (String.◌∷◌ d t) (String.◌∷◌ e u) h k =
    rw (cons-cons c e s u) (ground (arith, h', k', text_trans s t u))
  where
    h' : then (compare (code c) (code d)) (compare_text s t) ≡ lt
    h' = rw (cons-cons c d s t) at h

    k' : then (compare (code d) (code e)) (compare_text t u) ≡ lt
    k' = rw (cons-cons d e t u) at k
