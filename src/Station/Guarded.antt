-- ===== src/Station/Guarded.antt =====
-- What batches of the device page send and report (`runBatch`, `runBatchEdit`, pages/DevicePage.tsx).
use veristc.Prelude.{
  ℕ, suc, nat_beq, if◌then◌else◌, ◌++◌, ◌&&◌, ◌||◌, ap₂, sym, subst, ◌∙◌, ◌+◌, ◌-◌, ◌≡◌, ◌≢◌, refl,
  ap, String, ◌==◌, eq_iff, Option, none, some, List, [], ◌∷◌, map, filter, length, length-map,
  contains, Bool, true, false, not, arith,
}
use veristc.Station.Actions.{
  Request, Notice, BatchAction, graph_bound_names, guard_graph_bind, request_of, send_all,
  bound_names, targets_of, skipped_of, run_batch, mutate, on_toggle_point, on_delete_point,
  BatchRun, batch_notices,
}

filter-partition :
    (p : String → Bool) (xs : List String)
    → length (filter (λ x. not (p x)) xs) + length (filter p xs) ≡ length xs
filter-partition p [] = omega arith
filter-partition p (x ∷ xs) = ground (arith, filter-partition p xs)

contains-named :
    (rows : List String) (name : String)
    → name ≢ ""
    → contains rows name ≡ true
    → contains (filter (λ n. not (n == "")) rows) name ≡ true
contains-named [] name full h = absurd (cc h)
contains-named (row ∷ rows) name full h =
    ground (arith, contains-named rows name full, eq_iff row name, eq_iff row "", eq_iff name "")

contains-filter_named :
    (rows : List String) (name : String)
    → contains (filter (λ n. not (n == "")) rows) name ≡ (not (name == "") && contains rows name)
contains-filter_named [] name = ground arith
contains-filter_named (row ∷ rows) name =
    ground (arith, contains-filter_named rows name, eq_iff row name, eq_iff row "", eq_iff name "")

filter-true : (xs : List String) → filter (λ x. true) xs ≡ xs
filter-true [] = refl
filter-true (x ∷ xs) = ap (x ∷◌) (filter-true xs)

spared_of :
    (rows names : List String)
    → filter (λ name. not (contains (filter (λ n. not (n == "")) rows) name)) names
      ≡ filter (λ n. n == "" || not (contains rows n)) names
spared_of rows [] = refl
spared_of rows (name ∷ names) =
    ground (arith, spared_of rows names, contains-filter_named rows name)

-- How many of the answers to some requests are refusals, and how many are not.
abbrev pub failures : List (Option String) → ℕ
failures [] = 0
failures (none ∷ os) = failures os
failures (some message ∷ os) = suc (failures os)

abbrev pub successes : List (Option String) → ℕ
successes [] = 0
successes (none ∷ os) = suc (successes os)
successes (some message ∷ os) = successes os

module _ {S : Type 0} (send : Request → S → S × Option String) where
  requests-send_all : (rs : List Request) (s : S) → (send_all send rs s).requests ≡ rs
  unfolding send_all
  requests-send_all [] s = refl
  requests-send_all (r ∷ rs) s = ap (r ∷◌) (requests-send_all rs (send r s).0)

  -- The answers to requests that are made one after the other.
  abbrev pub answers : List Request → S → List (Option String)
  answers [] s = []
  answers (r ∷ rs) s = (send r s).1 ∷ answers rs (send r s).0

  failed-answers :
      (rs : List Request) (s : S) → (send_all send rs s).failed ≡ failures (answers rs s)
  unfolding send_all
  failed-answers [] s = refl
  failed-answers (r ∷ rs) s = one (send r s).1 (failed-answers rs (send r s).0)
    where
      one :
          (failure : Option String)
          → (send_all send rs (send r s).0).failed ≡ failures (answers rs (send r s).0)
          → (elim failure [ none ↦ 0 | some m ↦ 1 ]) + (send_all send rs (send r s).0).failed
            ≡ failures (failure ∷ answers rs (send r s).0)
      one none h = omega (arith, h)
      one (some m) h = omega (arith, h)

  successes-failures :
      (rs : List Request) (s : S) → length rs - failures (answers rs s) ≡ successes (answers rs s)
  successes-failures rs s = omega (arith, total rs s)
    where
      total :
          (rs : List Request) (s : S)
          → successes (answers rs s) + failures (answers rs s) ≡ length rs
      total [] s = omega arith
      total (r ∷ rs) s = one (send r s).1 (total rs (send r s).0)
        where
          one :
              (failure : Option String)
              → successes (answers rs (send r s).0) + failures (answers rs (send r s).0) ≡ length rs
              → successes (failure ∷ answers rs (send r s).0)
                  + failures (failure ∷ answers rs (send r s).0)
                ≡ suc (length rs)
          one none h = omega (arith, h)
          one (some m) h = omega (arith, h)

  -- What a batch asks for, and what it shows for the answers and the points that it leaves out; a count
  -- of zero shows nothing.
  abbrev pub shown_for : ℕ → ℕ → ℕ → List Notice
  shown_for done failed skipped =
      Notice.refreshed
        ∷ Notice.bindings_changed []
        ∷ (if nat_beq done 0 then [] else Notice.counted_success done ∷ [])
      ++ ((if nat_beq failed 0 then [] else Notice.counted_error failed ∷ [])
          ++ (if nat_beq skipped 0 then [] else Notice.counted_warning skipped ∷ []))

  abbrev pub IsBatch : List String → (String → Request) → List String → S → BatchRun send → Type 0
  IsBatch names request targets s run =
      (run.sent.requests ≡ map request targets)
      × (run.notices
          ≡ shown_for (successes (answers (map request targets) s))
              (failures (answers (map request targets) s)) (length names - length targets))

  batch_notices-shown_for :
      (done failed skipped : ℕ) → batch_notices done failed skipped ≡ shown_for done failed skipped
  batch_notices-shown_for done failed skipped = ground arith

  run_batch-IsBatch :
      (answer : Option (List String)) (action : BatchAction) (name : String) (names : List String)
      (s : S)
      → IsBatch
          (name ∷ names)
          (request_of action)
          (targets_of answer action (name ∷ names))
          s
          (run_batch send answer action (name ∷ names) s)
  unfolding run_batch targets_of skipped_of
  run_batch-IsBatch answer action name names s =
      let targets : List String = targets_of answer action (name ∷ names) in
      let rs : List Request = map (request_of action) targets in
      let skipped : ℕ = length (skipped_of answer action (name ∷ names)) in
      let parted : length (name ∷ names) - length targets ≡ skipped =
        omega (arith, filter-partition (contains (bound_names answer action)) (name ∷ names)) in
      let done : length targets - (send_all send rs s).failed ≡ successes (answers rs s) =
        ap₂ ◌-◌ (sym (length-map (request_of action) targets)) (failed-answers rs s)
        ∙ successes-failures rs s in
      (
        requests-send_all rs s,
        batch_notices-shown_for (length targets - (send_all send rs s).failed)
              (send_all send rs s).failed skipped
            ∙ (λ i. shown_for (done i) (failed-answers rs s i) (sym parted i)),
      )

  -- A batch asks the backend for its action on its points, one after the other in their order and
  -- whatever fails on the way: on all of them where it enables them, or where the graph does not
  -- answer; and where it disables or deletes them and the graph answers, on those that it does not
  -- bind. It shows how many of these requests succeeded, how many failed, and how many points were
  -- left out.
  pub run_batch-requests :
      (answer : Option (List String)) (rows : List String) (name : String) (names : List String)
      (s : S)
      → (let points : List String = name ∷ names in
          let spared : List String = filter (λ n. n == "" || not (contains rows n)) points in
          IsBatch points
            (λ n. Request.put_enabled n true)
            points
            s
            (run_batch send answer BatchAction.enable points s)
          × IsBatch points
              (λ n. Request.put_enabled n false)
              spared
              s
              (run_batch send (some rows) BatchAction.disable points s)
          × IsBatch points Request.delete_variable spared s
              (run_batch send (some rows) BatchAction.delete points s)
          × IsBatch points
              (λ n. Request.put_enabled n false)
              points
              s
              (run_batch send none BatchAction.disable points s)
          × IsBatch points Request.delete_variable points s
              (run_batch send none BatchAction.delete points s))
  unfolding targets_of bound_names graph_bound_names
  run_batch-requests answer rows name names s =
      let points : List String = name ∷ names in
      (
        subst
            (λ ts.
              IsBatch points (request_of BatchAction.enable) ts s
                (run_batch send answer BatchAction.enable points s))
            (filter-true points) (run_batch-IsBatch answer BatchAction.enable name names s),
        subst
            (λ ts.
              IsBatch points (request_of BatchAction.disable) ts s
                (run_batch send (some rows) BatchAction.disable points s))
            (spared_of rows points)
            (run_batch-IsBatch (some rows) BatchAction.disable name names s),
        subst
            (λ ts.
              IsBatch points (request_of BatchAction.delete) ts s
                (run_batch send (some rows) BatchAction.delete points s))
            (spared_of rows points) (run_batch-IsBatch (some rows) BatchAction.delete name names s),
        subst
            (λ ts.
              IsBatch points (request_of BatchAction.disable) ts s
                (run_batch send none BatchAction.disable points s))
            (filter-true points) (run_batch-IsBatch none BatchAction.disable name names s),
        subst
            (λ ts.
              IsBatch points (request_of BatchAction.delete) ts s
                (run_batch send none BatchAction.delete points s))
            (filter-true points) (run_batch-IsBatch none BatchAction.delete name names s),
      )

  -- A point that the graph binds is neither switched off nor deleted, if the graph answers which points
  -- it binds; if the graph does not answer, the point is switched off unasked.
  pub on_toggle_point-guards :
      (rows : List String) (name : String) (s : S)
      → name ≢ ""
      → contains rows name ≡ true
      → ((on_toggle_point send (some rows) name false s) ≡ (s, Notice.warning ∷ []))
        × ((on_delete_point send (some rows) true name s) ≡ (s, Notice.warning ∷ []))
        × ((on_toggle_point send none name false s).0 ≡ (send (Request.put_enabled name false) s).0)
  unfolding on_toggle_point on_delete_point mutate guard_graph_bind graph_bound_names
  on_toggle_point-guards rows name s full bound =
      let kept = contains-named rows name full bound in (rw kept, rw kept, refl)
