-- ===== src/Util.antt =====
-- util.c: the greatest and the least of the arguments, which are of the type `int`.
pub mod Extremes
use http2rtsp.Prelude.{◌^◌, ◌-◌, List, [], ◌∷◌, if◌then◌else◌}
use http2rtsp.Prelude.Int.{ℤ, pos, negsuc, ltb_ℤ}

abbrev pub int_min : ℤ
int_min = negsuc (2 ^ 31 - 1)

abbrev pub int_max : ℤ
int_max = pos (2 ^ 31 - 1)

-- The loops over the arguments.
unfoldable pub max_loop : ℤ → List ℤ → ℤ
max_loop greatest [] = greatest
max_loop greatest (a ∷ rest) = max_loop (if ltb_ℤ greatest a then a else greatest) rest

unfoldable pub min_loop : ℤ → List ℤ → ℤ
min_loop least [] = least
min_loop least (a ∷ rest) = min_loop (if ltb_ℤ a least then a else least) rest

-- The arguments behind `count`, as many as it says.
unfoldable pub max : List ℤ → ℤ
unfolding max_loop
max arguments = max_loop int_min arguments

unfoldable pub min : List ℤ → ℤ
unfolding min_loop
min arguments = min_loop int_max arguments
