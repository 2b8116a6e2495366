-- ===== src/Editor/Tabs.antt =====
-- The list of sheets (`newPage`, `closePage` and `renamePage`, pages/GraphEditorPage.tsx). A handler waits
-- for several answers in a row: it is given all of them, `none` for one that fails, and stops at the
-- first that does. No other event comes between them.
use Prim.Native.String
use veristc.Prelude.{
  ◌≡◌, ◌+◌, refl, eq_refl, Bool-cases, inl, inr, lookup, String, ◌==◌, if◌then◌else◌, Option, none,
  some, List, [], ◌∷◌, length, filter, not, Bool, true, false, insert,
}
use veristc.Lang.Decimal.{decimal}
use veristc.Chart.Types.{PageDoc}
use veristc.Editor.Reports.{PageRow}
use veristc.Editor.Session.{
  Session, Mutation, patch, put_page, save_effect, next_timer, touched, mutated, select_tab, loaded,
}

-- The page list beside the open sheet, and whether the last action was reported as failed.
pub record Tabs : Type 0 where
  pub pages : List PageRow
  pub session : Session
  pub failed : Bool

abbrev failing : Tabs → Tabs
failing s = record s { failed = true }

-- The end of a handler that loads a sheet.
abbrev load_into : String → Option PageDoc → Tabs → Tabs
load_into id none s = failing s
load_into id (some doc) s = record s { session = loaded id doc s.session; failed = false }

-- The list is there, and no edit is marked as unsaved any more.
abbrev refreshed : List PageRow → Tabs → Tabs
refreshed rows s = record s { pages = rows; session = select_tab s.session; failed = false }

-- The name that is suggested for a new sheet, and the one that is asked for.
unfoldable pub suggested_label : List PageRow → String
unfolding decimal
suggested_label pages = String.◌++◌ "PAGE" (decimal (length pages + 1))

unfoldable pub label_of : Option String → List PageRow → String
unfolding suggested_label
label_of none pages = suggested_label pages
label_of (some label) pages = label

-- `newPage`: the id of the created sheet, the list, and the sheet.
unfoldable pub new_page : Option String → Option (List PageRow) → Option PageDoc → Tabs → Tabs
unfolding select_tab
new_page none rows doc s = failing s
new_page (some id) none doc s = failing s
new_page (some id) (some rows) doc s = load_into id doc (refreshed rows s)

abbrev first_id : List PageRow → String
first_id [] = ""
first_id (row ∷ rows) = row.id

-- The sidecar's store without a sheet.
abbrev without_page : String → List (String × PageDoc) → List (String × PageDoc)
without_page id store = filter (λ (entry : String × PageDoc). not (entry.0 == id)) store

lookup-without_page :
    (id : String) (store : List (String × PageDoc)) → lookup id (without_page id store) ≡ none
lookup-without_page id [] = refl
lookup-without_page id ((key, doc) ∷ store) = elim (Bool-cases (key == id)) [
  | inl e ↦ rw e (lookup-without_page id store)
  | inr e ↦ rw (e) (rw (e) (lookup-without_page id store))
]

abbrev deleted : String → Tabs → Tabs
deleted id s = record s { session = record s.session { server = without_page id s.session.server } }

abbrev reload : Bool → String → Option PageDoc → Tabs → Tabs
reload is_open id doc s = if is_open then load_into id doc s else s

-- `closePage` that the user confirms: whether the sheet was deleted, the list, and the sheet that
-- comes in the place of the open one, if that was closed.
unfoldable pub close_page : String → Bool → Option (List PageRow) → Option PageDoc → Tabs → Tabs
unfolding select_tab
close_page id ok none doc s = if ok then failing (deleted id s) else failing s
close_page id ok (some rows) doc s =
    if ok
    then reload (id == s.session.page_id) (first_id rows) doc (refreshed rows (deleted id s))
    else failing s

-- `{ ...doc, page: { ...doc.page, label } }`
unfoldable pub relabelled : String → PageDoc → PageDoc
relabelled label doc = record doc { page = record doc.page { label = some label } }

abbrev stored : String → PageDoc → Tabs → Tabs
stored id doc s = record s {
  session = record s.session { server = insert id doc s.session.server };
}

-- `renamePage`: the stored sheet, whether the sidecar took it with its new label, the list, and the
-- sheet again, if it is the open one.
unfoldable pub rename_page :
    String → String → Option PageDoc → Bool → Option (List PageRow) → Option PageDoc → Tabs → Tabs
unfolding select_tab relabelled
rename_page id label none ok rows again s = failing s
rename_page id label (some doc) ok none again s =
    if ok
    then failing (record s { session = select_tab (stored id (relabelled label doc) s).session })
    else failing s
rename_page id label (some doc) ok (some rows) again s =
    if ok
    then reload (id == s.session.page_id) id again
        (refreshed rows (stored id (relabelled label doc) s))
    else failing s

-- Renaming the open sheet, answered before the save timer has run out, loses the edit: the sheet is put
-- back as the sidecar had it, under its new label, and nothing is left to be sent.
pub rename_page_drops_edit :
    (s : Tabs) (mutate : Mutation) (label : String) (doc : PageDoc) (rows : List PageRow)
    → (let edited : Tabs = record s { session = patch mutate s.session } in
        let after : Tabs =
          rename_page s.session.page_id label
            (some doc)
            true
            (some rows)
            (some (relabelled label doc))
            edited in
        (after.session.page ≡ some (relabelled label doc))
        × (after.session.timer ≡ none)
        × (after.session.in_flight ≡ s.session.in_flight)
        × (after.failed ≡ false))
unfolding patch put_page save_effect next_timer loaded select_tab rename_page
rename_page_drops_edit s mutate label doc rows = drops (mutated mutate s.session.page)
  where
    drops :
        (page : Option PageDoc)
        → (let edited : Tabs = record s { session = put_page page (touched s.session) } in
            let after : Tabs =
              rename_page s.session.page_id label
                (some doc)
                true
                (some rows)
                (some (relabelled label doc))
                edited in
            (after.session.page ≡ some (relabelled label doc))
            × (after.session.timer ≡ none)
            × (after.session.in_flight ≡ s.session.in_flight)
            × (after.failed ≡ false))
    drops none = rw (eq_refl s.session.page_id) (refl, refl, refl, refl)
    drops (some new) = rw (eq_refl s.session.page_id) (refl, refl, refl, refl)

-- Closing another sheet leaves the open one and its edits alone, but for the mark of unsaved edits.
pub close_page_other :
    (id : String) (rows : List PageRow) (doc : Option PageDoc) (s : Tabs)
    → (id == s.session.page_id) ≡ false
    → (let after : Tabs = close_page id true (some rows) doc s in
        (after.session.page ≡ s.session.page)
        × (after.session.timer ≡ s.session.timer)
        × (after.session.dirty ≡ false)
        × (after.pages ≡ rows)
        × (lookup id after.session.server ≡ none))
unfolding close_page select_tab
close_page_other id rows doc s other =
    rw other (refl, refl, refl, refl, lookup-without_page id s.session.server)
