-- ===== src/Station/Edits.antt =====
-- What a batch of edits of points sends and reports (`runBatchEdit`, pages/DevicePage.tsx).
use veristc.Prelude.{
  ℕ, suc, ◌≡◌, refl, ap, String, ◌==◌, if◌then◌else◌, Option, none, some, Option-cases, List, [],
  ◌∷◌, map, lookup, inl, inr,
}
use veristc.Station.Types.{ExternalVarRow, BindingPayload}
use veristc.Station.Points.{payload_for}
use veristc.Station.Batch.{BatchEdit}
use veristc.Station.Actions.{Request, edit_all, first_message}
use veristc.Station.Guarded.{answers, failures}

-- The edits of points that are known, as what they send.
abbrev pub payloads_of : List (String × ExternalVarRow) → List BatchEdit → List BindingPayload
payloads_of by_name [] = []
payloads_of by_name (e ∷ es) =
    let rest = payloads_of by_name es in
    elim (lookup e.name by_name) [ none ↦ rest | some row ↦ payload_for row e.patch ∷ rest ]

-- The points whose request was not refused, and the first message of the refusals that is not empty.
abbrev pub changed_by : List BindingPayload → List (Option String) → List (String × ℕ)
changed_by [] os = []
changed_by (p ∷ ps) [] = []
changed_by (p ∷ ps) (none ∷ os) = (p.var_name, p.channel) ∷ changed_by ps os
changed_by (p ∷ ps) (some message ∷ os) = changed_by ps os

abbrev pub first_refusal : List (Option String) → String
first_refusal [] = ""
first_refusal (none ∷ os) = first_refusal os
first_refusal (some message ∷ os) = if message == "" then first_refusal os else message

module _ {S : Type 0} (send : Request → S → S × Option String) where
  -- The backend after some requests.
  abbrev pub after : List Request → S → S
  after [] s = s
  after (r ∷ rs) s = after rs (send r s).0

  -- A batch of edits leaves the backend as it is after asking for the binding of each known point, in
  -- order and whatever is refused on the way. It reports as changed exactly the points whose request was
  -- not refused, counts the refused ones, and keeps the first message of a refusal that is not empty.
  pub edit_all-answers :
      (by_name : List (String × ExternalVarRow)) (edits : List BatchEdit) (s : S)
      → (let payloads : List BindingPayload = payloads_of by_name edits in
          let outcomes : List (Option String) = answers send (map Request.put_mapping payloads) s in
          ((edit_all send by_name edits s).state ≡ after (map Request.put_mapping payloads) s)
          × ((edit_all send by_name edits s).changed ≡ changed_by payloads outcomes)
          × ((edit_all send by_name edits s).failed ≡ failures outcomes)
          × ((edit_all send by_name edits s).first_error ≡ first_refusal outcomes))
  unfolding edit_all
  edit_all-answers by_name [] s = (refl, refl, refl, refl)
  edit_all-answers by_name (e ∷ es) s = elim (Option-cases (lookup e.name by_name)) [
    | inl missing ↦ rw (edit_all, payloads_of, missing) (edit_all-answers by_name es s)
    | inr (row, found) ↦
        let sent = send (Request.put_mapping (payload_for row e.patch)) s in
        let (state, changed, failed, message) = edit_all-answers by_name es sent.0 in
        elim (Option-cases sent.1) [
          | inl done ↦
              rw (edit_all, payloads_of, found, done)
                (
                  state,
                  ap (((payload_for row e.patch).var_name, (payload_for row e.patch).channel) ∷◌)
                      changed,
                  failed,
                  message,
                )
          | inr (refusal, refused) ↦
              rw (edit_all, payloads_of, found, refused)
                (state, changed, ap suc failed, ap (λ later. first_message refusal later) message)
        ]
  ]
