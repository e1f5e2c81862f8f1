-- ===== src/Llm/Complete.antt =====
-- `ProviderRouter.complete` and `complete_with_diagnostics` of zen_ma2_agent/llm/router.py: the ordered
-- fallback. The adapter sends a request over the network, so it is a parameter that reads and writes a world
-- `W`. The elapsed time of an attempt is left out of its row.
use Prim.Native.Nat.{ℕ, suc}
use zen_ma2_agent.Prelude.{
  Bool, true, false, ◌&&◌, ◌||◌, Option, none, some, List, [], ◌∷◌, ◌++◌, if◌then◌else◌, take,
  is_some, any, Result, ok, raise,
}
use zen_ma2_agent.Prelude.Eq.{◌==◌}
use zen_ma2_agent.Prelude.Text.{Text, codes, text_eq, is_space}
use zen_ma2_agent.Llm.Slots.{Builtins, ProviderSlot, SafeIdentity, safe_identity}
use zen_ma2_agent.Llm.Config.{after, starts_with}
use zen_ma2_agent.Llm.Router.{ProviderRouter, candidates}

-- What an adapter raises: `ProviderUnavailable` with its message, or an exception of the named type.
pub data Failure : Type 0 where
  unavailable : Text → Failure
  other_exception : Text → Failure

-- `part in s`
contains_text : Text → Text → Bool
unfolding after
contains_text part [] = starts_with part []
contains_text part (c ∷ s) = starts_with part (c ∷ s) || contains_text part s

drop_spaces : Text → Text
unfolding is_space
drop_spaces [] = []
drop_spaces (c ∷ s) = if is_space c then drop_spaces s else c ∷ s

-- The three decimal digits at the front of a text.
three_digits : Builtins → Text → Option Text
three_digits py (a ∷ b ∷ c ∷ s) =
    if py.is_decimal a && py.is_decimal b && py.is_decimal c then some (a ∷ b ∷ c ∷ []) else none
three_digits py _ = none

-- `httperror\s+(\d{3})` at the front of a text: its group
http_here : Builtins → Text → Option Text
unfolding after is_space drop_spaces three_digits
http_here py s = elim (after (codes "httperror") s) [
  | none ↦ none
  | some rest ↦ elim rest [
    | [] ↦ none
    | c ∷ more ↦ if is_space c then three_digits py (drop_spaces more) else none
  ]
]

-- `re.search(…)`: the leftmost match
http_status : Builtins → Text → Option Text
unfolding http_here
http_status py [] = none
http_status py (c ∷ s) =
    let later = http_status py s in
    elim (http_here py (c ∷ s)) [ some code ↦ some code | none ↦ later ]

-- `_parallel_failure_diagnostic(error, content)`; without an error, the content was empty.
unfoldable pub failure_diagnostic : Builtins → Option Failure → Text × Text
unfolding contains_text http_status
failure_diagnostic py none = (codes "PROVIDER_ERROR", codes "EMPTY_PROVIDER_RESPONSE")
failure_diagnostic py (some (other_exception name)) = (codes "PROVIDER_ERROR", take 80 name)
failure_diagnostic py (some (unavailable text)) =
    let message = py.casefold text in
    elim (http_status py message) [
      | some code ↦ (codes "TRANSPORT_FAILURE", codes "HTTPError " ++ code)
      | none ↦
          if any (λ marker. contains_text marker message)
            (codes "timeout" ∷ codes "timed out" ∷ codes "socket.timeout" ∷ [])
          then (codes "TRANSPORT_FAILURE", codes "TIMEOUT")
          else if any (λ marker. contains_text marker message)
              (codes "urlerror"
                ∷ codes "connectionerror"
                ∷ codes "connection refused"
                ∷ codes "connection failed"
                ∷ [])
          then (codes "TRANSPORT_FAILURE", codes "CONNECTION_ERROR")
          else if contains_text (codes "no chat completion content") message
          then (codes "PROVIDER_ERROR", codes "NO_CHAT_COMPLETION_CONTENT")
          else if contains_text (codes "empty chat completion content") message
          then (codes "PROVIDER_ERROR", codes "EMPTY_CHAT_COMPLETION")
          else (codes "PROVIDER_ERROR", codes "PROVIDER_UNAVAILABLE")
    ]

-- An image whose bytes were checked before.
pub record ProviderImageInput : Type 0 where
  pub media_type : Text
  pub image_bytes : List ℕ
  pub sha256 : Text

pub record Prompt : Type 0 where
  pub role : Text
  pub system : Text
  pub user : Text
  pub visual_evidence : Option ProviderImageInput

pub record Adapter (W : Type 0) : Type 0 where
  pub complete : ProviderSlot → (system user : Text) → W → Result Failure Text × W
  pub complete_with_image :
      Option
        (ProviderSlot → (system user : Text) → ProviderImageInput → W → Result Failure Text × W)

-- A row of the evidence of the attempts.
pub record Attempt : Type 0 where
  pub slot_number : ℕ
  pub provider_identity : SafeIdentity
  pub attempt_order : ℕ
  pub transport_success : Bool
  pub failure_class : Text
  pub failure_reason : Option Text
  pub candidate_status : Text
  pub visual_evidence_sent : Bool
  pub visual_evidence_sha256 : Option Text

pub data CompleteError : Type 0 where
  -- no candidate
  not_eligible : CompleteError
  -- what each candidate answered, and the rows
  exhausted : List (ℕ × Text) → List Attempt → CompleteError
  -- an exception that is not `ProviderUnavailable` passes through
  passed_on : Text → CompleteError

module _ {W : Type 0} (py : Builtins) (a : Adapter W) (q : Prompt) where
  -- The call of the adapter for one slot, inside the `try`.
  unfoldable pub ask : ProviderSlot → W → Result Failure Text × W
  ask slot w = elim q.visual_evidence [
    | none ↦ a.complete slot q.system q.user w
    | some image ↦ elim a.complete_with_image [
      | none ↦ (
        raise (unavailable (codes "Provider adapter does not support visual evidence input.")),
        w,
      )
      | some method ↦ method slot q.system q.user image w
    ]
  ]

  image_sha256 : Option Text
  image_sha256 = elim q.visual_evidence [ none ↦ none | some image ↦ some image.sha256 ]

  unfoldable pub failed_row : ProviderSlot → ℕ → Text → Attempt
  unfolding failure_diagnostic image_sha256
  failed_row slot order message =
      let (class, reason) = failure_diagnostic py (some (unavailable message)) in
      record {
        slot_number = slot.number;
        provider_identity = safe_identity slot;
        attempt_order = order;
        transport_success = false;
        failure_class = class;
        failure_reason = some reason;
        candidate_status =
            if class == codes "TRANSPORT_FAILURE"
            then codes "TRANSPORT_FAILURE"
            else codes "PROVIDER_ERROR";
        visual_evidence_sent = is_some q.visual_evidence && is_some a.complete_with_image;
        visual_evidence_sha256 = image_sha256;
      }

  unfoldable pub success_row : ProviderSlot → ℕ → Attempt
  unfolding image_sha256
  success_row slot order = record {
    slot_number = slot.number;
    provider_identity = safe_identity slot;
    attempt_order = order;
    transport_success = true;
    failure_class = codes "NONE";
    failure_reason = none;
    candidate_status = codes "TRANSPORT_SUCCESS";
    visual_evidence_sent = is_some q.visual_evidence;
    visual_evidence_sha256 = image_sha256;
  }

  abbrev pub Answer : Type 0
  Answer = Result CompleteError (Text × ProviderSlot × List Attempt) × W

  -- The loop over the candidates, with the failures and the rows so far.
  unfoldable pub try_in_order :
      (mode : Text) → List ProviderSlot → (order : ℕ) → List (ℕ × Text) → List Attempt → W → Answer
  unfolding ask failed_row success_row
  try_in_order mode [] order failures attempts w = (raise (exhausted failures attempts), w)
  try_in_order mode (slot ∷ slots) order failures attempts w =
      let (r, w') = ask slot w in
      elim r [
        | ok content ↦ (ok (content, slot, attempts ++ success_row slot order ∷ []), w')
        | raise e ↦ elim e [
          | other_exception name ↦ (raise (passed_on name), w')
          | unavailable message ↦
              let failures' = failures ++ (slot.number, message) ∷ [] in
              let attempts' = attempts ++ failed_row slot order message ∷ [] in
              let rest = try_in_order mode slots (suc order) failures' attempts' w' in
              if mode == codes "PRIMARY_ONLY"
              then (raise (exhausted failures' attempts'), w')
              else rest
        ]
      ]

  unfoldable pub complete_with_diagnostics : ProviderRouter → W → Answer
  unfolding candidates try_in_order
  complete_with_diagnostics r w = elim (candidates py q.role r) [
    | [] ↦ (raise not_eligible, w)
    | slot ∷ slots ↦ try_in_order r.mode (slot ∷ slots) 1 [] [] w
  ]

  unfoldable pub complete : ProviderRouter → W → Result CompleteError (Text × ProviderSlot) × W
  unfolding complete_with_diagnostics
  complete r w =
      let (answer, w') = complete_with_diagnostics r w in
      (elim answer [ ok (content, slot, attempts) ↦ ok (content, slot) | raise e ↦ raise e ], w')
