-- ===== src/Shell/Project.antt =====
-- The project that all pages share (project/ProjectProvider.tsx). The sidecar is the argument `send`: a
-- request leaves it in a new state, and fails with a message or not; `state_of` is what it answers
-- about its state, or why it does not.
use veristc.Prelude.{ℕ, ◌≡◌, refl, String, ◌==◌, if◌then◌else◌, Option, none, some, List, Bool}

pub record ProjectInfo : Type 0 where
  pub name : String
  pub path : String
  pub safety_level : String
  pub svm_version : String
  pub description : String
  pub tree : List (String × List String)

pub record RecentProject : Type 0 where
  pub path : String
  pub name : String
  pub safety_level : String
  pub opened_at : String
  pub exists_now : Bool
  pub pages : ℕ
  pub stations : ℕ
  pub blocks : ℕ

pub record RecentBlock : Type 0 where
  pub id : String
  pub name : String
  pub version : String
  pub category : String
  pub scope : String
  pub project : String
  pub touched_at : String

pub record LauncherState : Type 0 where
  pub current : Option ProjectInfo
  pub recent_projects : List RecentProject
  pub recent_blocks : List RecentBlock
  pub default_parent_dir : String

pub record CreateProjectInput : Type 0 where
  pub name : String
  pub parent_dir : Option String
  pub safety_level : String
  pub svm_version : Option String

pub data ProjectRequest : Type 0 where
  create : CreateProjectInput → ProjectRequest
  open_at : String → ProjectRequest
  save close : ProjectRequest
  forget : String → ProjectRequest

-- The shell's copy of the sidecar's state.
pub record Provider : Type 0 where
  pub state : Option LauncherState
  pub error : Option String

pub data Told (A : Type 0) : Type 0 where
  told : A → Told A
  failed : String → Told A

-- `value.current`
unfoldable pub current : Provider → Option ProjectInfo
current p = elim p.state [ none ↦ none | some s ↦ s.current ]

module _ {S : Type 0} (send : ProjectRequest → S → S × Option String)
    (state_of : S → Told LauncherState) where
  unfoldable pub refresh_state : S → Provider → Provider
  refresh_state s p = elim (state_of s) [
    | Told.told state ↦ record { state = some state; error = none }
    | Told.failed message ↦ record p { error = some message }
  ]

  -- A request that is refused throws, and the copy stays; another one is followed by a refresh.
  unfoldable pub perform : ProjectRequest → S → Provider → (S × Option String) × Provider
  unfolding refresh_state
  perform request s p =
      let (after, failure) = send request s in
      ((after, failure), elim failure [ none ↦ refresh_state after p | some m ↦ p ])

  -- `input.parent_dir || undefined`
  abbrev given_dir : Option String → Option String
  given_dir none = none
  given_dir (some dir) = if dir == "" then none else some dir

  unfoldable pub create_project : CreateProjectInput → S → Provider → (S × Option String) × Provider
  unfolding perform
  create_project input s p =
      perform (ProjectRequest.create (record input { parent_dir = given_dir input.parent_dir })) s p

  unfoldable pub open_project : String → S → Provider → (S × Option String) × Provider
  unfolding perform
  open_project path s p = perform (ProjectRequest.open_at path) s p

  unfoldable pub save_project : S → Provider → (S × Option String) × Provider
  unfolding perform
  save_project s p = perform ProjectRequest.save s p

  unfoldable pub close_project : S → Provider → (S × Option String) × Provider
  unfolding perform
  close_project s p = perform ProjectRequest.close s p

  unfoldable pub forget_project : String → S → Provider → (S × Option String) × Provider
  unfolding perform
  forget_project path s p = perform (ProjectRequest.forget path) s p

  -- After a request that went well, the shell shows the project that the sidecar works on; after one that
  -- failed, it shows what it showed, and the failure is passed on.
  pub current-perform :
      (request : ProjectRequest) (s : S) (p : Provider) (state : LauncherState)
      → state_of (send request s).0 ≡ Told.told state
      → ((send request s).1 ≡ none → current (perform request s p).1 ≡ state.current)
        × ((message : String)
            → (send request s).1 ≡ some message
            → ((perform request s p).1 ≡ p) × ((perform request s p).0.1 ≡ some message))
  unfolding perform refresh_state current
  current-perform request s p state answered =
      (λ h. rw (h, answered) refl, λ m h. rw h (refl, refl))
