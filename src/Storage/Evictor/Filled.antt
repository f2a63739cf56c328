-- ===== src/Storage/Evictor/Filled.antt =====
-- A new entry in a storage that is ready for the evictor (pkg/storage/lru/storage.go).
use mathlib.Core.Path.{fun_ext}
use adv_cache.Prelude.{ℕ, ◌+◌, ◌^◌, ◌<◌, ◌≡◌, refl, ap, none, arith, ◌==◌, Bool-cases, inl, inr}
use adv_cache.Model.Entry.{payload_bytes}
use adv_cache.Shard
use adv_cache.Shard.{Shard, map_shard_key}
use adv_cache.Shard.Counters.{sum_weight, Counted, set-Counted, sum_weight-insert}
use adv_cache.Storage
use adv_cache.Storage.{Storage, map_get, weight, weights, insert}
use adv_cache.Storage.Valid.New.{IsNew, insert-IsValid}
use adv_cache.Storage.Evictor.{Evict}
use adv_cache.Storage.Evictor.Sums.{Sound}
use adv_cache.Storage.Evictor.Ready.{Ready}

weights-insert : (p : ℕ) (s : Storage) → weights (insert p s) ≡ weights s
unfolding insert weight payload_bytes Storage.push
weights-insert p s = fun_ext (λ q. same q)
  where
    same : (q : ℕ) → weights (insert p s) q ≡ weights s q
    same q = elim (Bool-cases (p == q)) [
      | inl here ↦ let e : p ≡ q = ground arith in rw here (ap (weights s) e)
      | inr there ↦ rw there refl
    ]

-- The shard of the new entry, for weights that do not change.
set_shard-small :
    (w : ℕ → ℕ) (key p : ℕ) (h : Shard)
    → Shard.get key h ≡ none
    → sum_weight w h.items + w p < 2 ^ 63
    → sum_weight w (Shard.set w key p h).items < 2 ^ 63
unfolding Shard.set Shard.get Shard.count_set
set_shard-small w key p h absent room =
    let (sums, _) = sum_weight-insert w key p h.items absent in
    rw (absent, Shard.count_set) (omega (arith, sums, room))

-- What the theorem asks of the new entry: it is new, its key is free, and its weight fits its shard.
pub record Fits (p : ℕ) (s : Storage) : Type 0 where
  pub new : IsNew p s
  pub absent : map_get (s.entries p).key s ≡ none
  pub room :
      sum_weight (weights s) (s.shards (map_shard_key (s.entries p).key)).items + weights s p
      < 2 ^ 63

insert-Sound : (p : ℕ) (s : Storage) → Fits p s → Sound s → Sound (insert p s)
unfolding insert Storage.push map_get
insert-Sound p s f h = record {
  counted = λ j. rw (weights-insert p s) (counted j);
  small = λ j. rw (weights-insert p s) (small j);
}
  where
    counted : (j : ℕ) → Counted (weights s) ((insert p s).shards j)
    counted j = elim (Bool-cases (map_shard_key (s.entries p).key == j)) [
      | inl here ↦ rw here (set-Counted (weights s) (s.entries p).key p _ (h.counted _))
      | inr there ↦ rw there (h.counted j)
    ]

    small : (j : ℕ) → sum_weight (weights s) ((insert p s).shards j).items < 2 ^ 63
    small j = elim (Bool-cases (map_shard_key (s.entries p).key == j)) [
      | inl here ↦ rw here (set_shard-small (weights s) (s.entries p).key p _ f.absent f.room)
      | inr there ↦ rw there (h.small j)
    ]

-- A storage that is ready for the evictor is so after the insertion of a new entry whose key is
-- free and whose weight fits its shard.
pub insert-Ready :
    (p : ℕ) (e : Evict) → Fits p e.db → Ready e → Ready (record e { db = insert p e.db })
insert-Ready p e f s = record {
  order = s.order;
  holds = s.holds;
  covers = s.covers;
  valid = insert-IsValid p e.db f.new f.absent s.valid;
  sound = insert-Sound p e.db f s.sound;
}
