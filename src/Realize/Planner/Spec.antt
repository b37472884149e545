-- ===== src/Realize/Planner/Spec.antt =====
-- What the planner may do with one target, as a relation: each constructor is a kind of change
-- with the facts about the file, the ledger and the intent that allow it.
use agentic_context_registry.Base.{
  Bool, true, false, [], ◌∷◌, Option, none, some, Bytes, contains, ◌≡◌, ◌≢◌, ◌⊎◌, In,
}
use agentic_context_registry.Realize.Model.{
  generated, shared, Target, Intent, Operation, OperationKind, op_create, op_merge, Reason,
  create_missing, merge_unmanaged, op_remove, op_preserve, op_conflict,
}
use agentic_context_registry.Realize.Filesystem.{FileSnapshot}
use agentic_context_registry.Realize.Planner.Decide.{
  Delta, nothing, refuse, commit, kept, is_changed,
}
use agentic_context_registry.Realize.Planner.Remove.{retain}

-- The intent speaks of the file that is there, and its content holds every fragment that it names.
pub record IsBound (i : Intent) (snapshot : FileSnapshot) : Type 0 where
  pub intact : i.managed_intact ≡ true
  pub observed : i.observed_hash ≡ snapshot.hash
  pub holds : (f : Bytes) → In f i.preserved_content → f ≢ [] → contains i.content f ≡ true

-- The fragments are the file's own, and there is one unless the file is empty.
pub record KeepsFile (i : Intent) (snapshot : FileSnapshot) : Type 0 where
  pub own : (f : Bytes) → In f i.preserved_content → f ≢ [] → contains snapshot.content f ≡ true
  pub some_fragment : snapshot.content ≢ [] → (f : Bytes) × In f i.preserved_content × (f ≢ [])

-- The target of an intent takes its place in the ledger; where file and ledger say the same
-- already, there is no operation.
pub data Rewrites (snapshot : FileSnapshot) (t : Target) (i : Intent) (next : Target)
    : Delta → Type 0 where
  steady :
      t ≡ next
      → snapshot.hash ≡ next.output_hash
      → Rewrites snapshot t i next (record { targets = next ∷ []; operations = [] })
  written :
      (kind : OperationKind) (reason : Reason)
      → kind ≢ op_conflict
      → kind ≢ op_preserve
      → Rewrites snapshot t i next (commit kind (some t) snapshot next i.content reason)

module _ (content_hash : Bytes → Bytes) (snapshot : FileSnapshot) (tracked : Bool) where
  pub data Planned (previous : Option Target) (intent : Option Intent) : Delta → Type 0 where
    -- a file that is gone needs no removal
    absent : snapshot.exists ≡ false → Planned previous intent nothing
    unknown : previous ≡ none → intent ≡ none → Planned previous intent nothing
    refused :
        (path : Bytes) (reason : Reason) → Planned previous intent (refuse path previous reason)
    preserved :
        (o : Operation)
        → o.kind ≡ op_preserve
        → o.deletes ≡ false
        → Planned previous intent (record { targets = kept previous; operations = o ∷ [] })
    created :
        (i : Intent) (next : Target)
        → intent ≡ some i
        → snapshot.exists ≡ false
        → next.ownership ≢ shared
        → Planned previous intent (commit op_create previous snapshot next i.content create_missing)
    merged :
        (i : Intent) (next : Target)
        → intent ≡ some i
        → previous ≡ none
        → next.ownership ≡ shared
        → IsBound i snapshot
        → KeepsFile i snapshot
        → Planned previous intent (commit op_merge previous snapshot next i.content merge_unmanaged)
    -- an owned shared file: it stays shared, or is demoted on request with nothing left to keep
    shared_rewrite :
        (t : Target) (i : Intent) (next : Target) (d : Delta)
        → intent ≡ some i
        → previous ≡ some t
        → t.ownership ≡ shared
        → IsBound i snapshot
        → (next.ownership ≡ shared → KeepsFile i snapshot)
        → (next.ownership ≡ generated
            → (i.explicit_demotion ≡ true) × ((f : Bytes) → In f i.preserved_content → f ≡ []))
        → Rewrites snapshot t i next d
        → Planned previous intent d
    promoted :
        (t : Target) (i : Intent) (next : Target) (d : Delta)
        → intent ≡ some i
        → previous ≡ some t
        → t.ownership ≡ generated
        → next.ownership ≡ shared
        → IsBound i snapshot
        → KeepsFile i snapshot
        → Rewrites snapshot t i next d
        → Planned previous intent d
    -- an owned file as the ledger records it
    refreshed :
        (t : Target) (i : Intent) (next : Target) (d : Delta)
        → intent ≡ some i
        → previous ≡ some t
        → t.ownership ≢ shared
        → (t.ownership ≡ generated → is_changed snapshot t ≡ false)
        → Rewrites snapshot t i next d
        → Planned previous intent d
    -- ownership ends, and bytes stay in the file: its own, or an intent's that keep its fragments
    released :
        (t : Target) (reason : Reason)
        → previous ≡ some t
        → is_changed snapshot t ≡ false
        → tracked ≡ true
        → Planned previous intent (record {
          targets = [];
          operations = retain content_hash t snapshot snapshot.content reason ∷ [];
        })
    cut_out :
        (t : Target) (i : Intent) (reason : Reason)
        → intent ≡ some i
        → previous ≡ some t
        → IsBound i snapshot
        → ((f : Bytes) → In f i.preserved_content → f ≢ [] → contains snapshot.content f ≡ true)
        → (t.ownership ≡ shared) ⊎ ((f : Bytes) × In f i.preserved_content × (f ≢ []))
        → Planned previous intent (record {
          targets = [];
          operations = retain content_hash t snapshot i.content reason ∷ [];
        })
    deleted :
        (t : Target) (o : Operation)
        → previous ≡ some t
        → t.ownership ≢ shared
        → snapshot.exists ≡ true
        → is_changed snapshot t ≡ false
        → tracked ≡ false
        → o.kind ≡ op_remove
        → o.path ≡ t.path
        → Planned previous intent (record { targets = []; operations = o ∷ [] })
