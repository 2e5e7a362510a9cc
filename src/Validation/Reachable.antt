-- ===== src/Validation/Reachable.antt =====
-- What the search of scripts/validate_dags.py finds: the tasks behind `start`, all of them, within a
-- round for each task.
use snowflake_trade_pipeline.Prelude.{
  ℕ, zero, suc, ◌≤◌, ◌≡◌, refl, sym, ap, ◌⊎◌, inl, inr, ◌↔◌, String, true, false, ◌||◌, some, List,
  [], ◌∷◌, length, ◌==◌, string_eq, contains, count_if, arith, eq_iff, Bool-cases, All,
}
use snowflake_trade_pipeline.Validation.{
  TaskNode, ids, downstream_of, Traversal, from_start, expand, traverse, reachable_tasks,
}
use snowflake_trade_pipeline.Validation.Search.{
  List-cases, reachable-offer_all, frontier-offer_all, unseen, unseen-new, work, work-offer_all,
}

-- A chain of tasks leads from `start` to this one.
pub data IsReachable (tasks : List TaskNode) : String → Type 0 where
  here : IsReachable tasks "start"
  behind :
      {u v : String}
      → IsReachable tasks u
      → contains (downstream_of tasks u) v ≡ true
      → IsReachable tasks v

-- Each task right behind another is one of the DAG.
abbrev pub IsWired : List TaskNode → Type 0
IsWired tasks = All (λ t. All (λ v. contains (ids tasks) v ≡ true) t.downstream) tasks

module _ (tasks : List TaskNode) where
  record Inv (s : Traversal) : Type 0 where
    source : contains s.reachable "start" ≡ true
    queued : (v : String) → contains s.frontier v ≡ true → contains s.reachable v ≡ true
    sound : (v : String) → contains s.reachable v ≡ true → IsReachable tasks v
    closed :
        (u v : String)
        → contains s.reachable u ≡ true
        → contains (downstream_of tasks u) v ≡ true
        → (contains s.frontier u ≡ true) ⊎ (contains s.reachable v ≡ true)

  start_only : (v : String) → contains ("start" ∷ []) v ≡ true → v ≡ "start"
  unfolding contains
  start_only v h = sym ((eq_iff "start" v).0 (ground (arith, h)))

  Inv-from_start : Inv from_start
  unfolding contains
  Inv-from_start = record {
    source = refl;
    queued = λ v h. h;
    sound = λ v h. rw (start_only v h) here;
    closed = λ u v h k. inl h;
  }

  Inv-expand :
      (s : Traversal) (u : String) (rest : List String)
      → s.frontier ≡ u ∷ rest
      → Inv s
      → Inv (expand tasks s u rest)
  unfolding expand contains
  Inv-expand s u rest e h =
      let s' : Traversal = record { reachable = s.reachable; frontier = rest } in
      let vs = downstream_of tasks u in
      let first : contains s.frontier u ≡ true = rw e (ground (arith, eq_iff u u)) in
      let reaches = λ (w : String). reachable-offer_all s' vs w in
      let waits = λ (w : String). frontier-offer_all s' vs w in
      let split : (w : String) → contains s.frontier w ≡ (u == w || contains rest w) =
        λ w. ap (λ ws. contains ws w) e in
      let to_u = h.sound u (h.queued u first) in
      record {
        source = ground (arith, reaches "start", h.source);
        queued = λ v q. ground (arith, reaches v, waits v, h.queued v, split v, q);
        sound = λ v m. elim (Bool-cases (contains s.reachable v)) [
          | inl old ↦ h.sound v old
          | inr new ↦ behind to_u (ground (arith, reaches v, m, new))
        ];
        closed = λ x v m edge. elim (Bool-cases (x == u)) [
          | inl same ↦
              let at : x ≡ u = (eq_iff x u).0 same in
              let near : contains vs v ≡ true = rw at at edge in
              inr (ground (arith, reaches v, near))
          | inr other ↦ elim (Bool-cases (contains s.reachable x)) [
            | inr new ↦ inl (ground (arith, reaches x, waits x, m, new))
            | inl old ↦ elim (h.closed x v old edge) [
              | inl waiting ↦
                  inl (ground (arith, waits x, split x, waiting, eq_iff u x, eq_iff x u, other))
              | inr done ↦ inr (ground (arith, reaches v, done))
            ]
          ]
        ];
      }

  -- With an empty frontier all that is reachable is reached.
  complete :
      (s : Traversal)
      → Inv s
      → s.frontier ≡ []
      → (v : String) → IsReachable tasks v
      → contains s.reachable v ≡ true
  unfolding contains
  complete s h e v here = h.source
  complete s h e v (behind {u} p edge) = elim (h.closed u v (complete s h e u p) edge) [
    | inl waiting ↦ absurd (let none : false ≡ true = rw e at waiting in ground (arith, none))
    | inr m ↦ m
  ]

  -- The list is that of the tasks that can be reached.
  abbrev pub AreReached : List String → Type 0
  AreReached reached = (v : String) → (contains reached v ≡ true) ↔ IsReachable tasks v

  reached-Inv : (s : Traversal) → Inv s → s.frontier ≡ [] → AreReached s.reachable
  reached-Inv s h e v = (h.sound v, complete s h e v)

  traverse-AreReached :
      (fuel : ℕ) (s : Traversal) (reached : List String)
      → Inv s
      → traverse tasks fuel s ≡ some reached
      → AreReached reached
  unfolding traverse
  traverse-AreReached zero s reached h e = elim (List-cases s.frontier) [
    | inl empty ↦
        let same : s.reachable ≡ reached = ground (arith, e, empty) in
        rw same at (reached-Inv s h empty)
    | inr (u, rest, more) ↦ absurd (ground (arith, e, more))
  ]
  traverse-AreReached (suc fuel) s reached h e = elim (List-cases s.frontier) [
    | inl empty ↦
        let same : s.reachable ≡ reached = ground (arith, e, empty) in
        rw same at (reached-Inv s h empty)
    | inr (u, rest, more) ↦
        traverse-AreReached fuel (expand tasks s u rest) reached (Inv-expand s u rest more h)
          (rw (more, traverse) at e)
  ]

  downstream-wired :
      (ts : List TaskNode) (u : String)
      → All (λ t. All (λ v. contains (ids tasks) v ≡ true) t.downstream) ts
      → All (λ v. contains (ids tasks) v ≡ true) (downstream_of ts u)
  unfolding downstream_of
  downstream-wired [] u h = tt
  downstream-wired (t ∷ ts) u h = elim (Bool-cases (t.task_id == u)) [
    | inl e ↦ rw e h.0
    | inr e ↦ rw e (downstream-wired ts u h.1)
  ]

  traverse-ends :
      (fuel : ℕ) (s : Traversal)
      → IsWired tasks
      → work (ids tasks) s ≤ fuel
      → (reached : List String) × (traverse tasks fuel s ≡ some reached)
  unfolding traverse
  traverse-ends zero s wired h = elim (List-cases s.frontier) [
    | inl empty ↦ (s.reachable, rw (empty, traverse) refl)
    | inr (u, rest, e) ↦ absurd (omega (arith, h, ap length e))
  ]
  traverse-ends (suc fuel) s wired h = elim (List-cases s.frontier) [
    | inl empty ↦ (s.reachable, rw (empty, traverse) refl)
    | inr (u, rest, e) ↦
        let popped : Traversal = record { reachable = s.reachable; frontier = rest } in
        let less =
          work-offer_all (ids tasks) popped (downstream_of tasks u)
            (downstream-wired tasks u wired) in
        let (reached, ends) =
          traverse-ends fuel (expand tasks s u rest) wired
            (unfold expand in omega (arith, h, less, ap length e)) in
        (reached, rw (e, traverse) ends)
  ]

  unseen-none : (names : List String) → unseen names [] ≡ length names
  unfolding contains count_if
  unseen-none [] = refl
  unseen-none (n ∷ names) = omega (arith, unseen-none names)

  length-ids : (ts : List TaskNode) → length (ids ts) ≡ length ts
  length-ids [] = refl
  length-ids (t ∷ ts) = ap suc (length-ids ts)

  -- In a DAG with a task `start`, in which each task right behind another is one of the DAG, the
  -- search ends within a round for each task, and it has found exactly the tasks to which a chain
  -- leads from `start`.
  pub reachable_tasks-AreReached :
      IsWired tasks
      → contains (ids tasks) "start" ≡ true
      → (reached : List String) × (reachable_tasks tasks ≡ some reached)
        × ((v : String) → (contains reached v ≡ true) ↔ IsReachable tasks v)
  unfolding reachable_tasks contains
  reachable_tasks-AreReached wired has_start =
      let enough : work (ids tasks) from_start ≤ length tasks = omega (
        arith,
        unseen-new (ids tasks) [] "start" has_start refl,
        unseen-none (ids tasks),
        length-ids tasks,
      ) in
      let (reached, ends) = traverse-ends (length tasks) from_start wired enough in
      (reached, ends, traverse-AreReached (length tasks) from_start reached Inv-from_start ends)
