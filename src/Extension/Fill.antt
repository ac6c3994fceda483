-- ===== src/Extension/Fill.antt =====
-- content.ts: `doFill`, and cloud-fill.ts: `fetchCloudFills`.
use apply_agent.Prelude.{
  ℕ, String, ◌<>◌, Bool, Option, none, some, List, [], ◌∷◌, length, if◌then◌else◌, get_or_else,
  or_else,
}
use apply_agent.Extension.{DetectedField, UserProfile}
use apply_agent.Extension.LocalFill.{FillInstruction, FillPlan, plan_local_fill}

pub data AtsSource : Type 0 where
  greenhouse lever ashby other : AtsSource

pub record AtsContext : Type 0 where
  pub source : AtsSource
  pub external_id : Option String
  pub company_slug : Option String
  pub jd_url : String

pub record CloudFillRequest : Type 0 where
  pub context : AtsContext
  pub jd_url : String
  pub fields : List DetectedField

-- `Partial<CloudFillResponse>`; `none` is what is no array.
pub record CloudData : Type 0 where
  pub fills : Option (List FillInstruction)
  pub unmatched : Option (List DetectedField)

pub record CloudFillResponse : Type 0 where
  pub fills : List FillInstruction
  pub unmatched : List DetectedField

-- What `applyFills` returns
pub record FillResult : Type 0 where
  pub filled : ℕ
  pub errors : List String

pub record FillSummary : Type 0 where
  pub filled_local : ℕ
  pub filled_cloud : ℕ
  pub skipped_sensitive : ℕ
  pub unmatched : ℕ
  pub errors : ℕ
  pub remaining : List DetectedField

-- The page and the network: `applyFills` of dom-fill.ts, and the POST to `/extension/map-fields`, where
-- `none` is a failure, an answer that is not ok, or one that is no JSON.
pub record Host : Type 1 where
  pub State : Type 0
  pub apply_fills : List FillInstruction → State → State × FillResult
  pub post : (url : String) → CloudFillRequest → State → State × Option CloudData
  pub backend_url : State → Option String

-- The request that `doFill` sends, if it sends one
unfoldable pub cloud_request : (use_cloud : Bool) → AtsContext → FillPlan → Option CloudFillRequest
cloud_request use_cloud context plan = elim plan.unmatched [
  | [] ↦ none
  | f ∷ fs ↦
      if use_cloud
      then some (record { context = context; jd_url = context.jd_url; fields = f ∷ fs })
      else none
]

module _ (host : Host) where
  response_of : List DetectedField → Option CloudData → Option CloudFillResponse
  response_of fields none = none
  response_of fields (some d) =
      some (record { fills = get_or_else d.fills []; unmatched = get_or_else d.unmatched fields })

  -- `fetchCloudFills`
  unfoldable pub fetch_cloud_fills :
      CloudFillRequest → host.State → host.State × Option CloudFillResponse
  unfolding response_of
  fetch_cloud_fills request s =
      let backend = or_else (get_or_else (host.backend_url s) "") "http://localhost:8081" in
      let (t, answer) = host.post (backend <> "/extension/map-fields") request s in
      (t, response_of request.fields answer)

  after_response :
      FillPlan → host.State × Option CloudFillResponse → host.State × ℕ × List DetectedField
  after_response plan (s, none) = (s, 0, plan.unmatched)
  after_response plan (s, some r) =
      let (t, result) = host.apply_fills r.fills s in (t, result.filled, r.unmatched)

  ask_cloud : Option CloudFillRequest → FillPlan → host.State → host.State × ℕ × List DetectedField
  unfolding after_response
  ask_cloud none plan s = (s, 0, plan.unmatched)
  ask_cloud (some request) plan s = after_response plan (fetch_cloud_fills request s)

  -- `doFill`, from the fields that the page has and the profile that is stored
  unfoldable pub do_fill :
      (use_cloud : Bool)
      → AtsContext
      → List DetectedField
      → UserProfile
      → host.State
      → host.State × FillSummary
  unfolding ask_cloud
  do_fill use_cloud context fields profile s =
      let plan = plan_local_fill fields profile in
      let (t, local) = host.apply_fills plan.fills s in
      let (u, filled_cloud, left) = ask_cloud (cloud_request use_cloud context plan) plan t in
      (
        u,
        record {
          filled_local = local.filled;
          filled_cloud = filled_cloud;
          skipped_sensitive = length plan.skipped_sensitive;
          unmatched = length left;
          errors = length local.errors;
          remaining = left;
        },
      )
