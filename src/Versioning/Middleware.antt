-- ===== src/Versioning/Middleware.antt =====
-- framework/versioning/config.py and middleware.py: the version that a request asks for, and the
-- middleware that refuses the request or serves it by a version.
use Prim.Native.String.{◌++◌ as append}
use django_project_test.Base.{
  string_eq, ◌==◌, if◌then◌else◌, some, none, Bool, ℕ, Option, List, String, [], ◌∷◌,
}
use django_project_test.Versioning.Routing.{or_default, given, Library}
use django_project_test.Base.Dict.{insert, Dict}
use django_project_test.Versioning.{
  deprecated, canary, active, disabled, get, sunset, is_deprecated, VersionStatus, default,
  VersionRegistry, VersionSpec,
}

pub data Method : Type 0 where
  by_url by_header by_query unknown_method : Method

pub record VersioningConfig : Type 0 where
  pub default_version : String
  pub detection_order : List Method
  pub allow_fallback : Bool
  pub url_pattern : String
  pub header_name : String
  pub query_param : String

-- What the middleware answers: one of its own refusals, or the view's response with the headers that
-- the middleware sets.
pub data Reply (R : Type 0) : Type 0 where
  gone : (version : String) (successor : Option String) → Reply R
  disabled_version : (version : String) → Reply R
  no_such_version : (version : String) → Reply R
  replied : R → Dict String String → Reply R

-- What the middleware does before the view: it refuses, or sets `request.api_version`.
pub data Decision : Type 0 where
  refuses_gone : (version : String) (successor : Option String) → Decision
  refuses_disabled : (version : String) → Decision
  refuses_unknown : (version : String) → Decision
  serves : Option String → Decision

module _ {Q : Type 0} (lib : Library Q) where
  abbrev stripped : Option String → Option String
  stripped none = none
  stripped (some v) = some (lib.strip v)

  abbrev by_method : VersioningConfig → Q → Method → Option String
  by_method cfg request by_url = lib.url_version cfg.url_pattern request
  by_method cfg request by_header = stripped (given (lib.header request cfg.header_name))
  by_method cfg request by_query = stripped (given (lib.query request cfg.query_param))
  by_method cfg request unknown_method = none

  abbrev first_some : Option String → Option String → Option String
  first_some none rest = rest
  first_some (some v) rest = some v

  unfoldable pub detect_in : VersioningConfig → Q → List Method → Option String
  detect_in cfg request [] = none
  detect_in cfg request (method ∷ methods) =
      first_some (by_method cfg request method) (detect_in cfg request methods)

  abbrev pub detect_version_from_request : VersioningConfig → Q → Option String
  detect_version_from_request cfg request = detect_in cfg request cfg.detection_order

module _ {Q : Type 0} where
  abbrev pub name_of : Option (VersionSpec Q) → Option String
  name_of none = none
  name_of (some v) = some v.name

  abbrev pub fall_back : VersionRegistry Q → Decision
  fall_back reg = serves (name_of (default reg))

  -- A version whose name is empty would count as none.
  abbrev pub serve_named : VersionRegistry Q → String → Decision
  serve_named reg name = if name == "" then fall_back reg else serves (some name)

  unfoldable pub decide_status : VersionRegistry Q → VersionSpec Q → VersionStatus → Decision
  decide_status reg spec sunset = refuses_gone spec.name spec.successor
  decide_status reg spec disabled = refuses_disabled spec.name
  decide_status reg spec active = serve_named reg spec.name
  decide_status reg spec canary = serve_named reg spec.name
  decide_status reg spec deprecated = serve_named reg spec.name

  unfoldable pub decide_spec :
      VersioningConfig → VersionRegistry Q → String → Option (VersionSpec Q) → Decision
  unfolding decide_status
  decide_spec cfg reg name none = if cfg.allow_fallback then fall_back reg else refuses_unknown name
  decide_spec cfg reg name (some spec) = decide_status reg spec spec.status

  -- The second and the third step; a version asked for with an empty text counts as none.
  unfoldable pub decide : VersioningConfig → VersionRegistry Q → Option String → Decision
  unfolding decide_spec
  decide cfg reg none = fall_back reg
  decide cfg reg (some name) =
      if name == "" then fall_back reg else decide_spec cfg reg name (get name reg)

deprecation : (ℕ → String) → Option ℕ → String
deprecation iso none = "true"
deprecation iso (some day) = iso day

link : Option String → Dict String String → Dict String String
link none headers = headers
link (some successor) headers =
    if successor == ""
    then headers
    else insert "Link" (append "</api/" (append successor "/>; rel=\"successor-version\"")) headers

module _ {Q : Type 0} (iso : ℕ → String) where
  sunset_headers : VersionSpec Q → Option ℕ → Dict String String → Dict String String
  unfolding deprecation link
  sunset_headers spec none headers = headers
  sunset_headers spec (some day) headers =
      if is_deprecated spec
      then link spec.successor (
          insert "Sunset" (iso day)
            (insert "Deprecation" (deprecation iso spec.deprecated_at) headers))
      else headers

  spec_headers : Option (VersionSpec Q) → Dict String String → Dict String String
  unfolding sunset_headers
  spec_headers none headers = headers
  spec_headers (some spec) headers = sunset_headers spec spec.sunset_date headers

  -- The fifth step.
  unfoldable pub annotations :
      VersionRegistry Q → Option String → Option String → Dict String String
  unfolding spec_headers
  annotations reg requested none = []
  annotations reg requested (some version) =
      if version == ""
      then []
      else spec_headers (get version reg) (
          insert "X-API-Version-Served" version
            (insert "X-API-Version-Requested" (or_default requested "") []))

module _ {Q R : Type 0} (lib : Library Q) (iso : ℕ → String) where
  unfoldable pub carry_out :
      VersionRegistry Q → Option String → (Option String → R) → Decision → Reply R
  carry_out reg requested view (refuses_gone v successor) = gone v successor
  carry_out reg requested view (refuses_disabled v) = disabled_version v
  carry_out reg requested view (refuses_unknown v) = no_such_version v
  carry_out reg requested view (serves v) = replied (view v) (annotations iso reg requested v)

  -- `__call__`; the view takes what `request.api_version` is set to, and leaves the registry alone.
  unfoldable pub call : VersioningConfig → VersionRegistry Q → (Option String → R) → Q → Reply R
  unfolding carry_out
  call cfg reg view request =
      let requested = detect_version_from_request lib cfg request in
      carry_out reg requested view (decide cfg reg requested)
