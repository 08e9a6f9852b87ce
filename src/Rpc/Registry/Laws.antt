-- ===== src/Rpc/Registry/Laws.antt =====
-- Laws of the registry: what registering and unregistering a method does to each name, and that a
-- registered method always has metadata (pkg/rpc/registry.go, meta.go).
use mango_hub.Base.{
  ◌≡◌, ◌≢◌, true, false, Option, none, some, [], Bytes, eqb, eqb_iff, eqb_refl, ap, ◌∙◌, has_prefix,
  trim_space, if◌then◌else◌, arith,
}
use mango_hub.Base.Assoc.{lookup, lookup-insert, lookup-delete}
use mango_hub.Rpc.Registry.{
  MethodMeta, Registry, RegisterError, rpc_prefix, is_some, named, ensure_meta, register_meta,
  register, register_with_meta, unregister,
}

module _ {H V : Type 0} where
  -- Each method with a handler has metadata, so that rpc.help can describe it.
  abbrev pub Inspectable : Registry H V → Type 0
  Inspectable g =
      (k : Bytes) → is_some (lookup k g.handlers) ≡ true → is_some (lookup k g.metas) ≡ true

  register-Inspectable :
      (name : Bytes) (h : H) (g : Registry H V) → Inspectable g → Inspectable (register name h g).1
  unfolding register ensure_meta
  register-Inspectable name h g i k = ground (
    arith,
    i k,
    eqb_iff (trim_space name) k,
    lookup-insert (trim_space name) k h g.handlers,
    lookup-insert (trim_space name) k (named (trim_space name)) g.metas,
  )

  ensure_meta-Inspectable :
      (name : Bytes) (g : Registry H V) → Inspectable g → Inspectable (ensure_meta name g)
  unfolding ensure_meta
  ensure_meta-Inspectable name g i k =
      ground (arith, i k, eqb_iff name k, lookup-insert name k (named name) g.metas)

  register_meta-Inspectable :
      (name : Bytes) (m : MethodMeta V) (g : Registry H V)
      → Inspectable g
      → Inspectable (register_meta name (some m) g)
  unfolding register_meta
  register_meta-Inspectable name m g i k = ground (
    arith,
    i k,
    eqb_iff name k,
    lookup-insert name k m g.metas,
    lookup-insert name k (record m { name = name }) g.metas,
  )

  register_with_meta-Inspectable :
      (name : Bytes) (h : H) (m : Option (MethodMeta V)) (g : Registry H V)
      → Inspectable g
      → Inspectable (register_with_meta name h m g).1
  unfolding register_with_meta
  register_with_meta-Inspectable name h m g i =
      cases (register name h g).0 m (register name h g).1 (register-Inspectable name h g i)
    where
      cases :
          (e : Option RegisterError) (m : Option (MethodMeta V)) (g' : Registry H V)
          → Inspectable g'
          → Inspectable (
              let r : Option RegisterError × Registry H V = elim e [
                | some x ↦ (some x, g')
                | none ↦ (
                  none,
                  elim m [ none ↦ ensure_meta name g' | some y ↦ register_meta name (some y) g' ],
                )
              ] in
              r.1)
      cases (some x) m g' i' = i'
      cases none none g' i' = ensure_meta-Inspectable name g' i'
      cases none (some y) g' i' = register_meta-Inspectable name y g' i'

  unregister-Inspectable :
      (name : Bytes) (g : Registry H V) → Inspectable g → Inspectable (unregister name g).1
  unfolding unregister
  unregister-Inspectable name g i k = ground (
    arith,
    i k,
    lookup-delete (trim_space name) k g.handlers,
    lookup-delete (trim_space name) k g.metas,
  )

  -- Register, RegisterWithMeta and Unregister keep that each method with a handler has metadata,
  -- also where they fail and whatever metadata they are given.
  pub registry-Inspectable :
      (name : Bytes) (h : H) (m : Option (MethodMeta V)) (g : Registry H V)
      → Inspectable g
      → Inspectable (register name h g).1
        × Inspectable (register_with_meta name h m g).1
        × Inspectable (unregister name g).1
  registry-Inspectable name h m g i = (
    register-Inspectable name h g i,
    register_with_meta-Inspectable name h m g i,
    unregister-Inspectable name g i,
  )

  -- A registration that fails changes nothing.
  pub register-error :
      (name : Bytes) (h : H) (g : Registry H V) {e : RegisterError}
      → (register name h g).0 ≡ some e
      → (register name h g).1 ≡ g
  unfolding register
  register-error name h g bad = ground arith

  -- A registration that succeeds stores the handler under the trimmed name, which was free, is not
  -- empty and does not begin with `rpc.`; no other handler changes.
  pub register-ok :
      (name k : Bytes) (h : H) (g : Registry H V)
      → (register name h g).0 ≡ none
      → (lookup (trim_space name) g.handlers ≡ none)
        × (trim_space name ≢ [])
        × (has_prefix (trim_space name) rpc_prefix ≡ false)
        × (lookup k (register name h g).1.handlers
            ≡ (if eqb (trim_space name) k then some h else lookup k g.handlers))
  unfolding register ensure_meta
  register-ok name k h g ok =
      ground (arith, eqb_iff (trim_space name) [], lookup-insert (trim_space name) k h g.handlers)

  unregister_present :
      (name k : Bytes) (g : Registry H V) {h : H}
      → trim_space name ≢ []
      → has_prefix (trim_space name) rpc_prefix ≡ false
      → lookup (trim_space name) g.handlers ≡ some h
      → ((unregister name g).0 ≡ true)
        × (lookup k (unregister name g).1.handlers
            ≡ (if eqb (trim_space name) k then none else lookup k g.handlers))
        × (lookup (trim_space name) (unregister name g).1.metas ≡ none)
  unfolding unregister
  unregister_present name k g nonempty plain found = ground (
    arith,
    eqb_iff (trim_space name) [],
    eqb_refl (trim_space name),
    lookup-delete (trim_space name) k g.handlers,
    lookup-delete (trim_space name) (trim_space name) g.metas,
  )

  -- Unregister takes back what Register did: after both, each name has the handler it had before, the
  -- second says that it removed one, and no metadata is left under the name.
  pub unregister-register :
      (name k : Bytes) (h : H) (g : Registry H V)
      → (register name h g).0 ≡ none
      → ((unregister name (register name h g).1).0 ≡ true)
        × (lookup k (unregister name (register name h g).1).1.handlers ≡ lookup k g.handlers)
        × (lookup (trim_space name) (unregister name (register name h g).1).1.metas ≡ none)
  unregister-register name k h g ok =
      let (free, nonempty, plain, stored) = register-ok name (trim_space name) h g ok in
      let (_, _, _, at_k) = register-ok name k h g ok in
      let g' : Registry H V = (register name h g).1 in
      let (done, gone, no_meta) =
        unregister_present name k g' nonempty plain (rw (eqb_refl (trim_space name)) at stored) in
      (done, gone ∙ restored free at_k, no_meta)
    where
      restored :
          lookup (trim_space name) g.handlers ≡ none
          → lookup k (register name h g).1.handlers
            ≡ (if eqb (trim_space name) k then some h else lookup k g.handlers)
          → (if eqb (trim_space name) k then none else lookup k (register name h g).1.handlers)
            ≡ lookup k g.handlers
      restored free at_k = ground (arith, eqb_iff (trim_space name) k)

  -- Plugins cannot touch an internal method: no registration and no removal changes the handler of a
  -- name that begins with `rpc.`.
  pub internal_handlers :
      (name k : Bytes) (h : H) (m : Option (MethodMeta V)) (g : Registry H V)
      → has_prefix k rpc_prefix ≡ true
      → (lookup k (register name h g).1.handlers ≡ lookup k g.handlers)
        × (lookup k (unregister name g).1.handlers ≡ lookup k g.handlers)
  unfolding register unregister ensure_meta
  internal_handlers name k h m g p = ground (
    arith,
    eqb_iff (trim_space name) k,
    lookup-insert (trim_space name) k h g.handlers,
    lookup-delete (trim_space name) k g.handlers,
  )

  register-placeholder :
      (name : Bytes) (h : H) (g : Registry H V)
      → (register name h g).0 ≡ none
      → lookup (trim_space name) g.metas ≡ none
      → lookup (trim_space name) (register name h g).1.metas ≡ some (named (trim_space name))
  unfolding register ensure_meta
  register-placeholder name h g ok fresh = ground (
    arith,
    eqb_iff (trim_space name) [],
    eqb_refl (trim_space name),
    lookup-insert (trim_space name) (trim_space name) (named (trim_space name)) g.metas,
  )

  register_meta-keeps :
      (name : Bytes) (m : MethodMeta V) (g : Registry H V) {h : H} {x : MethodMeta V}
      → trim_space name ≢ name
      → lookup (trim_space name) g.handlers ≡ some h
      → lookup (trim_space name) g.metas ≡ some x
      → (lookup (trim_space name) (register_meta name (some m) g).handlers ≡ some h)
        × (lookup (trim_space name) (register_meta name (some m) g).metas ≡ some x)
  unfolding register_meta
  register_meta-keeps name m g padded stored known = ground (
    arith,
    eqb_iff name (trim_space name),
    lookup-insert name (trim_space name) m g.metas,
    lookup-insert name (trim_space name) (record m { name = name }) g.metas,
  )

  register_meta-stores :
      (name : Bytes) (m : MethodMeta V) (g : Registry H V)
      → name ≢ []
      → lookup name (register_meta name (some m) g).metas
        ≡ some (if eqb m.name [] then record m { name = name } else m)
  unfolding register_meta
  register_meta-stores name m g full = ground (
    arith,
    eqb_iff name [],
    eqb_refl name,
    lookup-insert name name m g.metas,
    lookup-insert name name (record m { name = name }) g.metas,
  )

  -- RegisterWithMeta of a name with white space around it, where the registration succeeds and the
  -- trimmed name has no metadata yet, puts the handler under the trimmed name and the metadata under
  -- the name as given, with that name where they have none; for the trimmed name there is the
  -- placeholder only.
  pub register_with_meta-padded :
      (name : Bytes) (h : H) (m : MethodMeta V) (g : Registry H V)
      → (register name h g).0 ≡ none
      → trim_space name ≢ name
      → lookup (trim_space name) g.metas ≡ none
      → (lookup (trim_space name) (register_with_meta name h (some m) g).1.handlers ≡ some h)
        × (lookup (trim_space name) (register_with_meta name h (some m) g).1.metas
            ≡ some (named (trim_space name)))
        × (lookup name (register_with_meta name h (some m) g).1.metas
            ≡ some (if eqb m.name [] then record m { name = name } else m))
  unfolding register_with_meta trim_space
  register_with_meta-padded name h m g ok padded fresh =
      let known = register-ok name (trim_space name) h g ok in
      let (handler, placeholder) =
        register_meta-keeps name m g' padded (stored known)
          (register-placeholder name h g ok fresh) in
      rw (ok, register_with_meta)
        (handler, placeholder, register_meta-stores name m g' (full known.1))
    where
      g' : Registry H V
      g' = (register name h g).1

      full : trim_space name ≢ [] → name ≢ []
      full trimmed e = trimmed (ap trim_space e)

      stored :
          (lookup (trim_space name) g.handlers ≡ none)
            × (trim_space name ≢ [])
            × (has_prefix (trim_space name) rpc_prefix ≡ false)
            × (lookup (trim_space name) g'.handlers ≡ (
                if eqb (trim_space name) (trim_space name)
                then some h
                else lookup (trim_space name) g.handlers))
          → lookup (trim_space name) g'.handlers ≡ some h
      stored (_, _, _, e) = rw (eqb_refl (trim_space name)) at e
