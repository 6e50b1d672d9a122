-- ===== src/Utils/Tests.antt =====
-- The helpers of python/zamlet/utils.py at concrete numbers.
use zamlet.Common.{◌≡◌, refl, arith, true, [], ◌∷◌, ok, ◌>>=◌}
use zamlet.Utils.{
  list_of_uints_to_uint, uint_to_list_of_uints, words_loop, split_by_factors, join_by_factors,
}
use zamlet.Utils.Words.{join_by_factors-split_by_factors}

split_up : uint_to_list_of_uints 1234 8 2 ≡ ok (210 ∷ 4 ∷ [])
unfolding uint_to_list_of_uints words_loop
split_up = refl

put_together : list_of_uints_to_uint (210 ∷ 4 ∷ []) 8 ≡ ok 1234
unfolding list_of_uints_to_uint
put_together = refl

join_by_factors-split_by_factors_example :
    (split_by_factors 1234 (3 ∷ 5 ∷ 7 ∷ []) true >>= λ pieces.
    join_by_factors pieces (3 ∷ 5 ∷ 7 ∷ []))
    ≡ ok 1234
join_by_factors-split_by_factors_example =
    join_by_factors-split_by_factors 1234 (3 ∷ 5 ∷ 7 ∷ [])
      (omega arith, (omega arith, (omega arith, tt)))
