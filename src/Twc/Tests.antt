-- ===== src/Twc/Tests.antt =====
-- A wait counter of two workers: two tasks are linked and one is executed.
use mir_dev.Base.{◌≡◌, refl, false, some, [], ◌∷◌, arith}
use mir_dev.Twc.{Twc, create, link, finish, reduce}
use mir_dev.Twc.Wait.{Reach, made, linked, finished, FewLinked, Reach-reduce}

abbrev one_left : Twc
one_left = record { count = 2; num_passes = 0; pass_time = 0 ∷ []; count_per_worker = 0 ∷ 1 ∷ [] }

one_left-Reach : Reach 2 one_left 1
unfolding create link finish
one_left-Reach = finished 1 (linked (linked made)) refl

one_left-FewLinked : FewLinked one_left-Reach
unfolding one_left-Reach
one_left-FewLinked = (omega arith, (omega arith, tt))

Reach-reduce_example : reduce one_left ≡ some false
Reach-reduce_example = Reach-reduce 2 1 one_left one_left-Reach one_left-FewLinked
