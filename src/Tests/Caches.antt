-- ===== src/Tests/Caches.antt =====
-- The cache run on small inputs, and its theorems at concrete ones.
use yscript.Prelude.{ℕ, ◌≡◌, refl, false, List, [], ◌∷◌, none, some, arith, ◌==◌}
use yscript.LruCache.{LruCache, init_cache, put, get, erase, contain, clear, size, set_max_size}
use yscript.LruCache.Stored.{contain-put-clear}
use yscript.LruCache.Uses.{
  Use, put_of, get_of, erase_of, contain_of, done, got, has, answers, recalled,
}
use yscript.LruCache.Answers.{answers-recalled}

abbrev two_items : LruCache ℕ ℕ
two_items = put ◌==◌ 2 20 (put ◌==◌ 1 10 (init_cache 2))

-- The item that was used last stays.
oldest_goes : contain ◌==◌ 2 (put ◌==◌ 3 30 ((get ◌==◌ 1 two_items).1)) ≡ false
unfolding contain put get init_cache
oldest_goes = refl

used_stays : (get ◌==◌ 1 (put ◌==◌ 3 30 ((get ◌==◌ 1 two_items).1))).0 ≡ some 10
unfolding put get init_cache
used_stays = refl

erased_is_gone : size (erase ◌==◌ 1 two_items) ≡ 1
unfolding size erase put init_cache
erased_is_gone = refl

growth_clears : size (set_max_size 3 two_items).1 ≡ 0
unfolding size set_max_size put init_cache
growth_clears = refl

-- A cache of two items, after a third `Put`.
abbrev some_uses : List (Use ℕ ℕ)
some_uses =
    put_of 1 10
    ∷ put_of 2 20
    ∷ get_of 1
    ∷ put_of 3 30
    ∷ contain_of 2
    ∷ get_of 1
    ∷ erase_of 1
    ∷ get_of 1
    ∷ []

uses_answered :
    answers ◌==◌ some_uses (init_cache 2)
    ≡ done ∷ done ∷ got (some 10) ∷ done ∷ has false ∷ got (some 10) ∷ done ∷ got none ∷ []
unfolding answers init_cache
uses_answered = refl

answers-recalled_example : answers ◌==◌ some_uses (init_cache 2) ≡ recalled ◌==◌ 2 some_uses []
answers-recalled_example =
    answers-recalled ◌==◌ (λ a b e. ground (arith, e)) (λ a. ground arith) 2 (omega arith) some_uses

contain-put-clear_example : contain ◌==◌ 5 (put ◌==◌ 5 50 (clear two_items)) ≡ false
unfolding put init_cache
contain-put-clear_example = contain-put-clear ◌==◌ 5 50 two_items refl (omega arith) (omega arith)
