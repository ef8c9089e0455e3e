-- ===== src/Subs.antt =====
-- The subscription registry that bapl/mem.go (`batchesSubs`) and
-- rebro/gossip/internal/round/manager.go (`roundSubs`) both keep: a map from keys to inner maps of
-- channels. The inner maps are shared objects: a caller holds on to the one that it subscribed in,
-- so they live in a store, `sets`, and the outer map holds references. Channels are numbers.
pub mod Laws
use unison.Base.{ℕ, suc, ◌+◌, Option, none, some, List, [], ◌∷◌, ite, ℕ_discrete}
use unison.Base.Key.{Key}
use unison.Base.Map.{Map, lookup, insert, delete}

pub record Subs (K : Type 0) : Type 0 where
  pub index : Map K ℕ
  pub sets : ℕ → List ℕ
  pub next_set : ℕ
  pub next_sub : ℕ

-- The store with one set changed.
abbrev pub update : (ℕ → List ℕ) → ℕ → List ℕ → ℕ → List ℕ
update sets ref xs a = ite (ℕ_discrete ref a) xs (sets a)

-- `delete(subs, sub)` on an inner map.
unfoldable pub remove_sub : ℕ → List ℕ → List ℕ
remove_sub sub [] = []
remove_sub sub (x ∷ xs) = ite (ℕ_discrete x sub) (remove_sub sub xs) (x ∷ remove_sub sub xs)

unfoldable pub no_subs : {K : Type 0} → Subs K
no_subs = record { index = []; sets = λ _. []; next_set = 0; next_sub = 0 }

module _ {K : Type 0} ⦃key : Key K⦄ where
  -- Who waits under a key: nobody when the outer map has no entry.
  abbrev pub waiting : K → Subs K → List ℕ
  waiting k s = elim (lookup k s.index) [ none ↦ [] | some ref ↦ s.sets ref ]

  -- A new channel under the key, in its inner map or in a new one. The caller keeps the reference
  -- and the channel.
  unfoldable pub subscribe : K → Subs K → (ℕ × ℕ) × Subs K
  unfolding lookup insert
  subscribe k s = elim (lookup k s.index) [
    | none ↦ (
      (s.next_set, s.next_sub),
      record s {
        index = insert k s.next_set s.index;
        sets = update s.sets s.next_set (s.next_sub ∷ []);
        next_set = suc s.next_set;
        next_sub = suc s.next_sub;
      },
    )
    | some ref ↦ (
      (ref, s.next_sub),
      record s { sets = update s.sets ref (s.next_sub ∷ s.sets ref); next_sub = suc s.next_sub },
    )
  ]

  -- The channels under a key, which are served or closed, and `delete` of the key's entry in the
  -- outer map; the inner map keeps its channels.
  unfoldable pub release : K → Subs K → List ℕ × Subs K
  unfolding lookup delete
  release k s = (waiting k s, record s { index = delete k s.index })

  -- A caller whose context is done takes its channel out of the inner map that it holds, and, when
  -- that is empty, deletes the key's entry in the outer map.
  unfoldable pub cancel : K → ℕ → ℕ → Subs K → Subs K
  unfolding remove_sub delete
  cancel k ref sub s =
      let left = remove_sub sub (s.sets ref) in
      record s {
        sets = update s.sets ref left;
        index = elim left [ [] ↦ delete k s.index | _ ∷ _ ↦ s.index ];
      }
