-- ===== src/Store/Claiming.antt =====
-- What the claim of ready tasks guarantees to the workers that poll.
use cloacina.Common.{
  ℕ, zero, suc, min, ◌≡◌, refl, ap, ◌∙◌, sym, subst, List, [], ◌∷◌, Bool, true, false, not, ◌||◌,
  ◌&&◌, all, any, length, filter, mem, map, ok, arith, ◌==◌, nat_eq, Bool-cases, inl, inr, ==→eq,
}
use cloacina.Store.Rows.{TaskExecution, Status, status_eq}
use cloacina.Store.Monad.{Db, BackendType, connect, gets, modify, pure, ◌>>=◌, ◌>>◌}
use cloacina.Store.Tasks.{update_where}
use cloacina.Store.Claims.{
  ClaimResult, claim_of, is_claimable, take, insert_by_id, sort_by_id, set_running, run_all,
  select_ready, claim_ready_task,
}

-- The rows under the id are running.
unfoldable runs : ℕ → TaskExecution → Bool
runs i t = not (t.id == i) || t.status == Status.running

unfoldable offered : ℕ → ℕ → TaskExecution → Bool
offered at i t = t.id == i && is_claimable at t

runs-update_where :
    (i j at : ℕ) (rows : List TaskExecution)
    → all (runs i) rows ≡ true
    → all (runs i) (update_where j (set_running at) rows) ≡ true
unfolding update_where set_running runs
runs-update_where i j at [] h = refl
runs-update_where i j at (t ∷ rows) h = ground (arith, runs-update_where i j at rows)

update_where-runs :
    (i at : ℕ) (rows : List TaskExecution)
    → all (runs i) (update_where i (set_running at) rows) ≡ true
unfolding update_where set_running runs
update_where-runs i at [] = refl
update_where-runs i at (t ∷ rows) = ground (arith, update_where-runs i at rows)

runs-run_all :
    (i at : ℕ) (ts rows : List TaskExecution)
    → all (runs i) rows ≡ true
    → all (runs i) (run_all at ts rows) ≡ true
unfolding run_all
runs-run_all i at [] rows h = h
runs-run_all i at (t ∷ ts) rows h = runs-run_all i at ts _ (runs-update_where i t.id at rows h)

run_all-runs :
    (i at : ℕ) (ts rows : List TaskExecution)
    → mem i (map (λ t. t.id) ts) ≡ true
    → all (runs i) (run_all at ts rows) ≡ true
unfolding run_all
run_all-runs i at [] rows h = cc
run_all-runs i at (t ∷ ts) rows h = elim (Bool-cases (t.id == i)) [
  | inl here ↦ runs-run_all i at ts _ (
      subst (λ j. all (runs i) (update_where j (set_running at) rows) ≡ true)
        (sym (==→eq t.id i here)) (update_where-runs i at rows))
  | inr there ↦ run_all-runs i at ts _ (ground arith)
]

runs-offered :
    (i at : ℕ) (rows : List TaskExecution)
    → all (runs i) rows ≡ true
    → any (offered at i) rows ≡ false
unfolding runs offered
runs-offered i at [] h = refl
runs-offered i at (t ∷ rows) h = ground (arith, runs-offered i at rows)

-- The picked rows are among the claimable ones.
ids-take :
    (i n : ℕ) (ts : List TaskExecution)
    → mem i (map (λ t. t.id) (take n ts)) ≡ true
    → mem i (map (λ t. t.id) ts) ≡ true
ids-take i zero ts h = cc
ids-take i (suc n) [] h = h
ids-take i (suc n) (t ∷ ts) h = ground (arith, ids-take i n ts)

ids-insert :
    (i : ℕ) (t : TaskExecution) (ts : List TaskExecution)
    → mem i (map (λ t. t.id) (insert_by_id t ts)) ≡ (t.id == i || mem i (map (λ t. t.id) ts))
unfolding insert_by_id
ids-insert i t [] = refl
ids-insert i t (u ∷ us) = ground (arith, ids-insert i t us)

ids-sort :
    (i : ℕ) (ts : List TaskExecution)
    → mem i (map (λ t. t.id) (sort_by_id ts)) ≡ mem i (map (λ t. t.id) ts)
unfolding sort_by_id
ids-sort i [] = refl
ids-sort i (t ∷ ts) = ground (arith, ids-insert i t (sort_by_id ts), ids-sort i ts)

ids-claimable :
    (i at : ℕ) (rows : List TaskExecution)
    → mem i (map (λ t. t.id) (filter (is_claimable at) rows)) ≡ any (offered at i) rows
unfolding offered
ids-claimable i at [] = refl
ids-claimable i at (t ∷ rows) = elim (Bool-cases (is_claimable at t)) [
  | inl due ↦ rw due ground (arith, ids-claimable i at rows)
  | inr other ↦ rw other ground (arith, ids-claimable i at rows)
]

ids-select :
    (b : BackendType) (i n at : ℕ) (rows : List TaskExecution)
    → mem i (map (λ t. t.id) (select_ready b n at rows)) ≡ true
    → any (offered at i) rows ≡ true
unfolding select_ready
ids-select BackendType.postgres i n at rows h = ground (
  arith,
  ids-take i n (sort_by_id (filter (is_claimable at) rows)) h,
  ids-sort i (filter (is_claimable at) rows),
  ids-claimable i at rows,
)
ids-select BackendType.sqlite i n at rows h =
    ground (arith, ids-take i n (filter (is_claimable at) rows) h, ids-claimable i at rows)

length-take : (n : ℕ) (ts : List TaskExecution) → length (take n ts) ≡ min n (length ts)
length-take zero ts = omega arith
length-take (suc n) [] = omega arith
length-take (suc n) (t ∷ ts) = omega (arith, length-take n ts)

length-insert :
    (t : TaskExecution) (ts : List TaskExecution) → length (insert_by_id t ts) ≡ suc (length ts)
unfolding insert_by_id
length-insert t [] = refl
length-insert t (u ∷ us) = ground (arith, length-insert t us)

length-sort : (ts : List TaskExecution) → length (sort_by_id ts) ≡ length ts
unfolding sort_by_id
length-sort [] = refl
length-sort (t ∷ ts) = length-insert t (sort_by_id ts) ∙ ap suc (length-sort ts)

length-select :
    (b : BackendType) (n at : ℕ) (rows : List TaskExecution)
    → length (select_ready b n at rows) ≡ min n (length (filter (is_claimable at) rows))
unfolding select_ready
length-select BackendType.postgres n at rows =
    length-take n (sort_by_id _) ∙ ap (min n) (length-sort (filter (is_claimable at) rows))
length-select BackendType.sqlite n at rows = length-take n _

length-map : (ts : List TaskExecution) → length (map claim_of ts) ≡ length ts
length-map [] = refl
length-map (t ∷ ts) = ap suc (length-map ts)

ids-claims : (ts : List TaskExecution) → map (λ c. c.id) (map claim_of ts) ≡ map (λ t. t.id) ts
ids-claims [] = refl
ids-claims (t ∷ ts) = ap (λ is. t.id ∷ is) (ids-claims ts)

-- The time that a claim reads, and the rows it picks.
abbrev pub claim_time : Db → ℕ
claim_time db = db.world.clock (suc db.calls)

abbrev picks : ℕ → Db → List TaskExecution
picks n db = select_ready db.backend n (claim_time db) db.tasks

claim_ready_task-ok :
    (n : ℕ) (db : Db) {cs : List ClaimResult}
    → (claim_ready_task n db).0 ≡ ok cs
    → (map claim_of (picks n db) ≡ cs)
      × ((claim_ready_task n db).1.tasks ≡ run_all (claim_time db) (picks n db) db.tasks)
unfolding claim_ready_task connect gets modify pure ◌>>=◌ ◌>>◌
claim_ready_task-ok n db h = elim (Bool-cases (db.world.fault db.calls)) [
  | inl down ↦ absurd (ground arith)
  | inr up ↦ (ground arith, rw up refl)
]

-- Two claims one after the other, of any sizes, share no task, whether the store is PostgreSQL or
-- SQLite: a claimed task is running, and only ready tasks are claimed.
pub claim_ready_task-disjoint :
    (n m : ℕ) (db : Db) {cs ds : List ClaimResult}
    → (claim_ready_task n db).0 ≡ ok cs
    → (claim_ready_task m (claim_ready_task n db).1).0 ≡ ok ds
    → (i : ℕ) → mem i (map (λ c. c.id) cs) ≡ true
    → mem i (map (λ c. c.id) ds) ≡ false
claim_ready_task-disjoint n m db {cs} {ds} h k i c =
    elim (Bool-cases (mem i (map (λ c. c.id) ds))) [
      | inr apart ↦ apart
      | inl twice ↦
          let db' = (claim_ready_task n db).1 in
          let first = claim_ready_task-ok n db h in
          let second = claim_ready_task-ok m db' k in
          let mine = ap (λ xs. mem i (map (λ c. c.id) xs)) first.0 ∙ c in
          let theirs = ap (λ xs. mem i (map (λ c. c.id) xs)) second.0 ∙ twice in
          let running =
            run_all-runs i (claim_time db) (picks n db) db.tasks
              (sym (ap (mem i) (ids-claims (picks n db))) ∙ mine) in
          let ready =
            ids-select db'.backend i m (claim_time db') db'.tasks
              (sym (ap (mem i) (ids-claims (picks m db'))) ∙ theirs) in
          let none_ready =
            runs-offered i (claim_time db') db'.tasks (ap (all (runs i)) first.1 ∙ running) in
          absurd (ground arith)
    ]

-- A claim that succeeds returns as many tasks as the limit allows of those that are ready and due
-- at the time of the claim, and each task it returns is one of them.
pub claim_ready_task-due :
    (n : ℕ) (db : Db) {cs : List ClaimResult}
    → (claim_ready_task n db).0 ≡ ok cs
    → (length cs ≡ min n (length (filter (is_claimable (claim_time db)) db.tasks)))
      × ((i : ℕ)
          → mem i (map (λ c. c.id) cs) ≡ true
          → any (λ t. t.id == i && is_claimable (claim_time db) t) db.tasks ≡ true)
unfolding offered
claim_ready_task-due n db h =
    let run = claim_ready_task-ok n db h in
    (
      ap length (sym run.0)
          ∙ length-map (picks n db)
          ∙ length-select db.backend n (claim_time db) db.tasks,
      λ i c. ids-select db.backend i n (claim_time db) db.tasks (
          sym (ap (mem i) (ids-claims (picks n db)))
          ∙ ap (λ xs. mem i (map (λ c. c.id) xs)) run.0
          ∙ c),
    )
