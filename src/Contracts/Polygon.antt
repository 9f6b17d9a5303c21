-- ===== src/Contracts/Polygon.antt =====
-- hsl_core/hsl_core/contracts.py: `validate_polygon` and `_segments_intersect`.
-- A coordinate is an integer of micrometres, so that an area is one of square micrometres and the
-- tolerance 1e-12 is 1. Rounding of floats and non-finite coordinates are outside of the model.
use hsl.Prelude.{
  ◌≡◌, ◌↔◌, Bool, true, false, not, ◌&&◌, ◌||◌, List, [], ◌∷◌, arith, Eq, length, any, is_unique,
  ltb, if◌then◌else◌,
}
use hsl.Prelude.Int.{int_beq, ℤ, pos, negsuc, ◌+ℤ◌, ◌-ℤ◌, ◌*ℤ◌, ltb_ℤ, leb_ℤ}
use hsl.Prelude.Outcome.{Outcome, ok, refuse, ◌>>◌}

abbrev pub Point : Type 0
Point = ℤ × ℤ

abbrev pub point_beq : Point → Point → Bool
point_beq p q = int_beq p.0 q.0 && int_beq p.1 q.1

pub point_beq_iff : (p q : Point) → (point_beq p q ≡ true) ↔ (p ≡ q)
point_beq_iff (a, b) (c, d) = ground arith

instance abbrev pub point_eq : Eq Point
point_eq = record { beq = point_beq; beq_iff = point_beq_iff }

unfoldable pub orientation : Point → Point → Point → ℤ
unfolding ◌-ℤ◌ ◌*ℤ◌
orientation a b c = (b.0 -ℤ a.0) *ℤ (c.1 -ℤ a.1) -ℤ (b.1 -ℤ a.1) *ℤ (c.0 -ℤ a.0)

abbrev min_ℤ : ℤ → ℤ → ℤ
min_ℤ a b = if ltb_ℤ b a then b else a

abbrev max_ℤ : ℤ → ℤ → ℤ
max_ℤ a b = if ltb_ℤ a b then b else a

unfoldable pub on_segment : Point → Point → Point → Bool
on_segment a b p =
    leb_ℤ (min_ℤ a.0 b.0) p.0
    && leb_ℤ p.0 (max_ℤ a.0 b.0)
    && leb_ℤ (min_ℤ a.1 b.1) p.1
    && leb_ℤ p.1 (max_ℤ a.1 b.1)

-- `abs(value) <= 1e-12`, `value > 1e-12`, `value < -1e-12`
abbrev is_flat : ℤ → Bool
is_flat v = leb_ℤ (negsuc 0) v && leb_ℤ v (pos 1)

abbrev is_left : ℤ → Bool
is_left v = ltb_ℤ (pos 1) v

abbrev is_right : ℤ → Bool
is_right v = ltb_ℤ v (negsuc 0)

abbrev on_both : Point → Point → Point → Point → Point → Bool
on_both a b c d p = on_segment a b p && on_segment c d p

-- `_segments_intersect`, from the four orientations.
unfoldable pub intersect_by : ℤ → ℤ → ℤ → ℤ → Bool → Bool
intersect_by v0 v1 v2 v3 touching =
    if is_flat v0 && is_flat v1 && is_flat v2 && is_flat v3
    then touching
    else not ((is_left v0 && is_left v1) || (is_right v0 && is_right v1))
      && not ((is_left v2 && is_left v3) || (is_right v2 && is_right v3))

unfoldable pub segments_intersect : Point → Point → Point → Point → Bool
unfolding orientation on_segment intersect_by
segments_intersect a b c d =
    intersect_by (orientation a b c) (orientation a b d) (orientation c d a) (orientation c d b)
      (any (on_both a b c d) (a ∷ b ∷ c ∷ d ∷ []))

-- The edges of a ring: each vertex with the next one, the last with the first.
unfoldable pub edges_from : Point → List Point → List (Point × Point)
edges_from first [] = []
edges_from first (p ∷ []) = (p, first) ∷ []
edges_from first (p ∷ q ∷ ps) = (p, q) ∷ edges_from first (q ∷ ps)

unfoldable pub edges : List Point → List (Point × Point)
unfolding edges_from
edges [] = []
edges (p ∷ ps) = edges_from p (p ∷ ps)

unfoldable pub area2 : List (Point × Point) → ℤ
unfolding ◌+ℤ◌ ◌-ℤ◌ ◌*ℤ◌
area2 [] = pos 0
area2 (((ax, ay), (bx, by)) ∷ es) = (ax *ℤ by -ℤ bx *ℤ ay) +ℤ area2 es

-- Two edges with no vertex in common: the source compares the indices, and the vertices are
-- distinct when it does.
abbrev pub are_apart : Point × Point → Point × Point → Bool
are_apart (a, b) (c, d) = not (point_beq a c || point_beq b c || point_beq d a)

unfoldable pub crosses : Point × Point → List (Point × Point) → Bool
unfolding segments_intersect
crosses (a, b) [] = false
crosses (a, b) ((c, d) ∷ es) =
    (are_apart (a, b) (c, d) && segments_intersect a b c d) || crosses (a, b) es

unfoldable pub is_simple : List (Point × Point) → Bool
unfolding crosses
is_simple [] = true
is_simple (e ∷ es) = not (crosses e es) && is_simple es

-- The source's test that the ring does not repeat its closing vertex follows that of distinct
-- vertices, which implies it.
unfoldable pub validate_polygon : List Point → Outcome (List Point)
unfolding edges area2 is_simple
validate_polygon points = do
  refuse (ltb (length points) 3) "polygon requires at least three vertices"
  refuse (not (is_unique points)) "polygon vertices must be distinct"
  let area = area2 (edges points)
  refuse (is_flat area) "polygon vertices must be non-collinear"
  refuse (ltb_ℤ area (pos 0)) "polygon must be counterclockwise"
  refuse (not (is_simple (edges points))) "polygon must be simple"
  ok points
