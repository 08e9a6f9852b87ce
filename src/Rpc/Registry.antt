-- ===== src/Rpc/Registry.antt =====
-- The registry of methods and of their metadata (pkg/rpc/registry.go, meta.go, internal.go) and of
-- sensitive methods (sensitive.go). The package's maps, `handlers`, `methodMetas` and
-- `sensitiveMethods`, are the fields of one record, which each operation is given and returns. `H`
-- is the type of handlers, and `V` that of the example values.
pub mod Laws
use mango_hub.Base.{
  ◌≡◌, Bool, true, false, ◌||◌, ◌&&◌, not, Option, none, some, List, [], ◌∷◌, ◌++◌, Bytes, codes,
  eqb, has_prefix, trim_space, if◌then◌else◌,
}
use mango_hub.Base.Assoc.{Map, lookup, insert, delete}

-- ParamMeta
pub record ParamMeta : Type 0 where
  pub name : Bytes
  pub type_of : Bytes
  pub required : Bool
  pub description : Bytes

-- MethodMeta
pub record MethodMeta (V : Type 0) : Type 0 where
  pub name : Bytes
  pub summary : Bytes
  pub description : Bytes
  pub params : List ParamMeta
  pub returns : Bytes
  pub example : Option V

pub record Registry (H V : Type 0) : Type 0 where
  pub handlers : Map H
  pub metas : Map (MethodMeta V)
  pub sensitive : Map Bool

pub data RegisterError : Type 0 where
  method_empty : RegisterError
  prefix_reserved : RegisterError
  already_registered : Bytes → RegisterError

abbrev pub rpc_prefix : Bytes
rpc_prefix = codes "rpc."

abbrev is_some {ℓ} : {A : Type ℓ} → Option A → Bool
is_some none = false
is_some (some _) = true

-- &MethodMeta{Name: name}
abbrev pub named : {V : Type 0} → Bytes → MethodMeta V
named name = record {
  name = name;
  summary = [];
  description = [];
  params = [];
  returns = [];
  example = none;
}

module _ {H V : Type 0} where
  -- getMetaUnsafe
  unfoldable pub get_meta : Bytes → Registry H V → Option (MethodMeta V)
  get_meta name g = lookup name g.metas

  unfoldable pub ensure_meta : Bytes → Registry H V → Registry H V
  ensure_meta name g =
      if eqb name []
      then g
      else if is_some (lookup name g.metas)
      then g
      else record g { metas = insert name (named name) g.metas }

  -- A nil meta is `none`.
  unfoldable pub register_meta : Bytes → Option (MethodMeta V) → Registry H V → Registry H V
  register_meta name none g = g
  register_meta name (some meta) g =
      if eqb name []
      then g
      else let filled : MethodMeta V =
          if eqb meta.name [] then record meta { name = name } else meta in
        record g { metas = insert name filled g.metas }

  -- The error of Register is the first component; `none` is nil.
  unfoldable pub register : Bytes → H → Registry H V → Option RegisterError × Registry H V
  unfolding ensure_meta
  register name h g =
      let method = trim_space name in
      if eqb method []
      then (some method_empty, g)
      else if has_prefix method rpc_prefix
      then (some prefix_reserved, g)
      else if is_some (lookup method g.handlers)
      then (some (already_registered method), g)
      else (none, ensure_meta method (record g { handlers = insert method h g.handlers }))

  -- MustRegister; `none` is its panic.
  unfoldable pub must_register : Bytes → H → Registry H V → Option (Registry H V)
  must_register name h g =
      let (err, g') = register name h g in elim err [ none ↦ some g' | some _ ↦ none ]

  unfoldable pub register_with_meta :
      Bytes → H → Option (MethodMeta V) → Registry H V → Option RegisterError × Registry H V
  unfolding register_meta
  register_with_meta name h meta g =
      let (err, g') = register name h g in
      elim err [
        | some e ↦ (some e, g')
        | none ↦ (
          none,
          elim meta [ none ↦ ensure_meta name g' | some m ↦ register_meta name (some m) g' ],
        )
      ]

  unfoldable pub unregister : Bytes → Registry H V → Bool × Registry H V
  unregister name g =
      let method = trim_space name in
      if eqb method [] || has_prefix method rpc_prefix
      then (false, g)
      else if is_some (lookup method g.handlers)
      then (true, record g { handlers = delete method g.handlers; metas = delete method g.metas })
      else (false, g)

  unfoldable pub register_internal : Bytes → H → Registry H V → Registry H V
  register_internal name h g =
      let method = if has_prefix name rpc_prefix then name else rpc_prefix ++ name in
      if is_some (lookup method g.handlers)
      then g
      else record g { handlers = insert method h g.handlers }

  unfoldable pub mark_sensitive : Bytes → Registry H V → Registry H V
  mark_sensitive method g = record g { sensitive = insert method true g.sensitive }

  unfoldable pub is_sensitive : Bytes → Registry H V → Bool
  is_sensitive method g = elim (lookup method g.sensitive) [ none ↦ false | some b ↦ b ]
