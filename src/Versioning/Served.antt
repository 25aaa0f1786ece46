-- ===== src/Versioning/Served.antt =====
-- Which versions the middleware lets a view serve.
use django_project_test.Versioning.{
  deprecated, canary, active, disabled, sunset, default, available, is_available, VersionStatus,
  get, VersionSpec, VersionRegistry,
}
use django_project_test.Base.{
  ≢→==, ◌≢◌, refl, string_eq, none, inr, inl, false, arith, true, ◌==◌, ap, Bool-cases, ◌≡◌, some,
  ℕ, String, Option,
}
use django_project_test.Versioning.Middleware.{
  annotations, carry_out, decide_spec, decide_status, serves, serve_named, name_of, refuses_unknown,
  detect_version_from_request, refuses_disabled, disabled_version, replied, refuses_gone, gone,
  Reply, call, Decision, VersioningConfig, decide,
}
use django_project_test.Versioning.Routing.{Library}
use django_project_test.Base.Dict.{Dict}

abbrev Serves : (Option String → Type 0) → Decision → Type 0
Serves P (refuses_gone v successor) = Unit
Serves P (refuses_disabled v) = Unit
Serves P (refuses_unknown v) = Unit
Serves P (serves v) = P v

module _ {Q : Type 0} where
  -- The version asked for, registered and available, or the default's.
  pub data Allowed (reg : VersionRegistry Q) (requested : Option String) (v : Option String)
      : Type 0 where
    as_asked :
        (name : String) (spec : VersionSpec Q)
        → requested ≡ some name
        → get name reg ≡ some spec
        → is_available spec ≡ true
        → v ≡ some spec.name
        → Allowed reg requested v
    by_default : v ≡ name_of (default reg) → Allowed reg requested v

  Serves-named :
      (reg : VersionRegistry Q) (name : String) (spec : VersionSpec Q)
      → get name reg ≡ some spec
      → is_available spec ≡ true
      → Serves (Allowed reg (some name)) (serve_named reg spec.name)
  Serves-named reg name spec found ok = elim (Bool-cases (spec.name == "")) [
    | inl e ↦ rw e (by_default refl)
    | inr e ↦ rw e (as_asked name spec refl found ok refl)
  ]

  Serves-decide_status :
      (reg : VersionRegistry Q) (name : String) (spec : VersionSpec Q)
      → get name reg ≡ some spec
      → (s : VersionStatus) → spec.status ≡ s
      → Serves (Allowed reg (some name)) (decide_status reg spec s)
  unfolding decide_status
  Serves-decide_status reg name spec found sunset e = tt
  Serves-decide_status reg name spec found disabled e = tt
  Serves-decide_status reg name spec found active e =
      Serves-named reg name spec found (ap available e)
  Serves-decide_status reg name spec found canary e =
      Serves-named reg name spec found (ap available e)
  Serves-decide_status reg name spec found deprecated e =
      Serves-named reg name spec found (ap available e)

  Serves-decide_spec :
      (cfg : VersioningConfig) (reg : VersionRegistry Q) (name : String)
      (o : Option (VersionSpec Q))
      → get name reg ≡ o
      → Serves (Allowed reg (some name)) (decide_spec cfg reg name o)
  unfolding decide_spec
  Serves-decide_spec cfg reg name none e = elim (Bool-cases cfg.allow_fallback) [
    | inl b ↦ rw b (by_default refl)
    | inr b ↦ rw b tt
  ]
  Serves-decide_spec cfg reg name (some spec) e =
      Serves-decide_status reg name spec e spec.status refl

  Serves-decide :
      (cfg : VersioningConfig) (reg : VersionRegistry Q) (requested : Option String)
      → Serves (Allowed reg requested) (decide cfg reg requested)
  unfolding decide
  Serves-decide cfg reg none = by_default refl
  Serves-decide cfg reg (some name) = elim (Bool-cases (name == "")) [
    | inl e ↦ rw e (by_default refl)
    | inr e ↦ rw e (Serves-decide_spec cfg reg name (get name reg) refl)
  ]

module _ {Q R : Type 0} (lib : Library Q) (iso : ℕ → String) where
  served-carry_out :
      (reg : VersionRegistry Q) (requested : Option String) (view : Option String → R)
      (P : Option String → Type 0) (d : Decision) (x : R) (headers : Dict String String)
      → Serves P d
      → carry_out lib iso reg requested view d ≡ replied x headers
      → (v : Option String) × (x ≡ view v) × P v
  unfolding carry_out
  served-carry_out reg requested view P (refuses_gone v successor) x headers p e = ground arith
  served-carry_out reg requested view P (refuses_disabled v) x headers p e = ground arith
  served-carry_out reg requested view P (refuses_unknown v) x headers p e = ground arith
  served-carry_out reg requested view P (serves v) x headers p e = (v, ground arith, p)

  -- Where the middleware replies by the view, the view was called with the version that the request
  -- asks for, which is registered and available, or with the name of the default.
  pub served_version-Allowed :
      (cfg : VersioningConfig) (reg : VersionRegistry Q) (view : Option String → R) (request : Q)
      (x : R) (headers : Dict String String)
      → call lib iso cfg reg view request ≡ replied x headers
      → (v : Option String) × (x ≡ view v)
        × Allowed reg (detect_version_from_request lib cfg request) v
  unfolding call
  served_version-Allowed cfg reg view request x headers e =
      let requested = detect_version_from_request lib cfg request in
      served-carry_out reg requested view (Allowed reg requested) (decide cfg reg requested) x
        headers (Serves-decide cfg reg requested) e

  pub data Refused : Reply R → Type 0 where
    as_gone : (version : String) (successor : Option String) → Refused (gone version successor)
    as_disabled : (version : String) → Refused (disabled_version version)

  unavailable-decide_status :
      (reg : VersionRegistry Q) (requested : Option String) (view : Option String → R)
      (spec : VersionSpec Q) (s : VersionStatus)
      → available s ≡ false
      → Refused (carry_out lib iso reg requested view (decide_status reg spec s))
  unfolding carry_out decide_status
  unavailable-decide_status reg requested view spec sunset h = as_gone spec.name spec.successor
  unavailable-decide_status reg requested view spec disabled h = as_disabled spec.name
  unavailable-decide_status reg requested view spec active h = ground arith
  unavailable-decide_status reg requested view spec canary h = ground arith
  unavailable-decide_status reg requested view spec deprecated h = ground arith

  -- A default version that is sunset or disabled, and has a name: a request that asks for it is refused,
  -- and a request that asks for no version is served by it.
  pub retired_default_served :
      (cfg : VersioningConfig) (reg : VersionRegistry Q) (view : Option String → R)
      (asking silent : Q) (name : String) (spec : VersionSpec Q)
      → default reg ≡ some spec
      → get name reg ≡ some spec
      → name ≢ ""
      → is_available spec ≡ false
      → detect_version_from_request lib cfg asking ≡ some name
      → detect_version_from_request lib cfg silent ≡ none
      → Refused (call lib iso cfg reg view asking)
        × (call lib iso cfg reg view silent
            ≡ replied (view (some spec.name)) (annotations iso reg none (some spec.name)))
  unfolding call decide decide_spec carry_out
  retired_default_served cfg reg view asking silent name spec d found named off asks none_asked = (
    rw (asks, ≢→== {A = String} name "" named, found)
        (unavailable-decide_status reg (some name) view spec spec.status off),
    rw (none_asked, d) refl,
  )
