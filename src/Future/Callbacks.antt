-- ===== src/Future/Callbacks.antt =====
-- The callback registry of a `JobFuture`: what `listen` adds, `unlisten` takes away.
use slurm_manager.Base.{
  ◌≡◌, refl, ◌≢◌, ◌↔◌, true, false, Option, none, some, List, [], ◌∷◌, ◌++◌, arith,
}
use slurm_manager.Base.Text.{Text}
use slurm_manager.Base.Dict.{Dict, lookup, insert}
use slurm_manager.Future.{
  RegisteredCallback, JobFuture, register, remove_first, remove_entry, remove_callback, registered,
}

-- No callback of the list has that id.
abbrev pub Lacks : Text → List RegisteredCallback → Type 0
Lacks id [] = Unit
Lacks id (cb ∷ cbs) = (cb.id ≢ id) × Lacks id cbs

abbrev pub LacksAll : Text → Dict (List RegisteredCallback) → Type 0
LacksAll id [] = Unit
LacksAll id ((event, cbs) ∷ d) = Lacks id cbs × LacksAll id d

-- Every registered event has a callback.
abbrev pub NoneEmpty : Dict (List RegisteredCallback) → Type 0
NoneEmpty [] = Unit
NoneEmpty ((event, cbs) ∷ d) = (cbs ≢ []) × NoneEmpty d

remove_first-append :
    (cb : RegisteredCallback) (cbs : List RegisteredCallback)
    → Lacks cb.id cbs
    → remove_first cb.id (cbs ++ cb ∷ []) ≡ some cbs
unfolding remove_first
remove_first-append cb [] h = ground arith
remove_first-append cb (x ∷ cbs) h = ground (arith, remove_first-append cb cbs h.1)

remove_first-Lacks :
    (id : Text) (cbs : List RegisteredCallback) → Lacks id cbs → remove_first id cbs ≡ none
unfolding remove_first
remove_first-Lacks id [] h = refl
remove_first-Lacks id (x ∷ cbs) h = ground (arith, remove_first-Lacks id cbs h.1)

remove_entry-register :
    (cb : RegisteredCallback) (d : Dict (List RegisteredCallback))
    → LacksAll cb.id d
    → NoneEmpty d
    → remove_entry cb.id (insert cb.event (registered (lookup cb.event d) ++ cb ∷ []) d) ≡ some d
unfolding remove_entry remove_first lookup insert
remove_entry-register cb [] h full = ground arith
remove_entry-register cb ((event, []) ∷ d) h full = absurd (full.0 refl)
remove_entry-register cb ((event, x ∷ cbs) ∷ d) h full = ground (
  arith,
  remove_first-append cb (x ∷ cbs) h.0,
  remove_first-Lacks cb.id (x ∷ cbs) h.0,
  remove_entry-register cb d h.1 full.1,
)

-- Where no callback of the future has the id and no event an empty list, removing a callback that
-- was just registered under the id succeeds and restores the future.
pub remove_callback-register :
    (cb : RegisteredCallback) (f : JobFuture)
    → LacksAll cb.id f.callback_registry
    → NoneEmpty f.callback_registry
    → remove_callback cb.id (register cb f) ≡ (true, f)
unfolding remove_callback register
remove_callback-register cb f h full =
    ground (arith, remove_entry-register cb f.callback_registry h full)

remove_first-none :
    (id : Text) (cbs : List RegisteredCallback) → remove_first id cbs ≡ none → Lacks id cbs
unfolding remove_first
remove_first-none id [] e = tt
remove_first-none id (x ∷ cbs) e = ground (arith, remove_first-none id cbs)

remove_entry-none :
    (id : Text) (d : Dict (List RegisteredCallback)) → remove_entry id d ≡ none → LacksAll id d
unfolding remove_entry
remove_entry-none id [] e = tt
remove_entry-none id ((event, cbs) ∷ d) e =
    ground (arith, remove_first-none id cbs, remove_entry-none id d)

remove_entry-LacksAll :
    (id : Text) (d : Dict (List RegisteredCallback)) → LacksAll id d → remove_entry id d ≡ none
unfolding remove_entry
remove_entry-LacksAll id [] h = refl
remove_entry-LacksAll id ((event, cbs) ∷ d) h =
    ground (arith, remove_first-Lacks id cbs h.0, remove_entry-LacksAll id d h.1)

-- `_remove_callback` answers false exactly when no registered callback has the id, and then the
-- future is unchanged.
pub remove_callback-eq-false :
    (id : Text) (f : JobFuture)
    → (((remove_callback id f).0 ≡ false) ↔ LacksAll id f.callback_registry)
      × ((remove_callback id f).0 ≡ false → (remove_callback id f).1 ≡ f)
unfolding remove_callback
remove_callback-eq-false id f =
    ground (
      arith,
      remove_entry-none id f.callback_registry,
      remove_entry-LacksAll id f.callback_registry,
    )

abbrev Kept : Option (Dict (List RegisteredCallback)) → Type 0
Kept none = Unit
Kept (some d) = NoneEmpty d

remove_entry-Kept :
    (id : Text) (d : Dict (List RegisteredCallback)) → NoneEmpty d → Kept (remove_entry id d)
unfolding remove_entry
remove_entry-Kept id [] h = tt
remove_entry-Kept id ((event, cbs) ∷ d) h = ground (arith, remove_entry-Kept id d h.1)

remove_callback-NoneEmpty :
    (id : Text) (f : JobFuture)
    → NoneEmpty f.callback_registry
    → NoneEmpty (remove_callback id f).1.callback_registry
unfolding remove_callback
remove_callback-NoneEmpty id f h = ground (arith, remove_entry-Kept id f.callback_registry h)

insert-NoneEmpty :
    (event : Text) (cbs : List RegisteredCallback) (d : Dict (List RegisteredCallback))
    → cbs ≢ []
    → NoneEmpty d
    → NoneEmpty (insert event cbs d)
unfolding insert
insert-NoneEmpty event cbs [] full h = (full, tt)
insert-NoneEmpty event cbs ((e, old) ∷ d) full h =
    ground (arith, insert-NoneEmpty event cbs d full h.1)

snoc-ne-nil : (cbs : List RegisteredCallback) (cb : RegisteredCallback) → cbs ++ cb ∷ [] ≢ []
snoc-ne-nil [] cb = λ e. cc
snoc-ne-nil (x ∷ cbs) cb = λ e. cc

-- Registering a callback and removing one both keep every event of the future's registry with at
-- least one callback.
pub registry-NoneEmpty :
    (cb : RegisteredCallback) (id : Text) (f : JobFuture)
    → NoneEmpty f.callback_registry
    → NoneEmpty (register cb f).callback_registry
      × NoneEmpty (remove_callback id f).1.callback_registry
unfolding register
registry-NoneEmpty cb id f h = (
  insert-NoneEmpty cb.event _ f.callback_registry
      (snoc-ne-nil (registered (lookup cb.event f.callback_registry)) cb) h,
  remove_callback-NoneEmpty id f h,
)
