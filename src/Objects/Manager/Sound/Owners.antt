-- ===== src/Objects/Manager/Sound/Owners.antt =====
-- Handles with other owners.
use packaged_task.Base.{
  ℕ, suc, ◌+◌, ◌≤◌, ◌<◌, ◌≡◌, sym, subst, ◌∙◌, inl, inr, List, find, assign, find-assign, some,
  Bool-cases, ◌==◌, if◌then◌else◌, arith,
}
use packaged_task.Objects.State.{World, ObjHandle, ObjEntry}
use packaged_task.Objects.Manager.Counts.{owners_of, count}
use packaged_task.Objects.Manager.Owned.{owned_by}
use packaged_task.Objects.Manager.Sound.{IsLed, Sound}

-- Less may be held from outside.
pub held-Sound :
    (es : List (ℕ × ObjEntry)) (held held' : List (ℕ × ℕ)) (w : World)
    → Sound es held w
    → ((h : ℕ) → count (suc h) held' ≤ count (suc h) held)
    → Sound es held' w
held-Sound es held held' w s less = record {
  owned = s.owned;
  led = s.led;
  objects_below = s.objects_below;
  ids_below = s.ids_below;
  own = s.own;
  counted = λ h. omega (arith, s.counted h, less h);
}

-- A handle that leads where it led, with another number of owners, which is enough.
pub recounted-Sound :
    (es : List (ℕ × ObjEntry)) (held held' : List (ℕ × ℕ)) (h n : ℕ) (r : ObjHandle) (w : World)
    → Sound es held w
    → find h w.handles ≡ some r
    → 0 < n
    → ((j : ℕ)
        → count (suc j) held' + count (suc j) (owned_by w.objects es)
          ≤ owners_of (find (suc j) (assign h (record r { owners = n }) w.handles)))
    → Sound es held' (record w { handles = assign h (record r { owners = n }) w.handles })
recounted-Sound es held held' h n r w s there some_owner enough = record {
  owned = λ j q f. elim (Bool-cases (h == j)) [
    | inl same ↦ ground (arith, now j, s.owned h r there)
    | inr other ↦ s.owned j q (ground (arith, now j))
  ];
  led = λ j q f set. elim (Bool-cases (h == j)) [
    | inl same ↦
        let at : h ≡ j = ground arith in
        let ptr : r.ptr ≡ q.ptr = ground (arith, now j) in
        subst (λ (a : ℕ). IsLed es w.objects j a) ptr
          (subst (λ (a : ℕ). IsLed es w.objects a r.ptr) at
            (s.led h r there (λ z. set (sym ptr ∙ z))))
    | inr other ↦ s.led j q (ground (arith, now j)) set
  ];
  objects_below = s.objects_below;
  ids_below = s.ids_below;
  own = s.own;
  counted = enough;
}
  where
    now :
        (j : ℕ)
        → find j (assign h (record r { owners = n }) w.handles)
          ≡ (if h == j then some (record r { owners = n }) else find j w.handles)
    now j = find-assign h j (record r { owners = n }) w.handles
