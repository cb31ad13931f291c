-- ===== src/Outbound.antt =====
-- The messages that go upstream: their types of internal/copilot/protocol.go, and
-- internal/copilot/outbound.go.
pub mod Laws
use copilot_openai_proxy.Base.{Bool, true, false, List, [], ◌∷◌, ◌++◌, if◌then◌else◌}
use copilot_openai_proxy.Base.Text.{Text, codes}
use copilot_openai_proxy.Base.Unicode.{Unicode}
use copilot_openai_proxy.Errors.{Err, wrapped, Result, ok, err, is_empty, map_err, ◌>>=◌}
use copilot_openai_proxy.ModelId.{protocol_mode_and_product}

-- productOptions and setOptionsAds
pub record SetOptionsAds : Type 0 where
  pub supported_types : List Text
  pub opt_out_of_personalization : Bool
  pub tags_supported : Bool

pub record SetOptionsMessage : Type 0 where
  pub event : Text
  pub supported_cards : List Text
  pub ads : SetOptionsAds
  pub supported_actions : List Text
  pub supported_features : List Text
  pub supported_ui_components : List (Text × Text)

pub record SendContent : Type 0 where
  pub kind : Text
  pub text : Text
  pub url : Text

pub record SendMessage : Type 0 where
  pub event : Text
  pub content : List SendContent
  pub conversation_id : Text
  pub mode : Text
  pub product : Text

pub record ChallengeAnswerMessage : Type 0 where
  pub event : Text
  pub answer : Text

-- The values that the program gives to sendEvent.
pub data Outgoing : Type 0 where
  options : SetOptionsMessage → Outgoing
  prompt : SendMessage → Outgoing
  answer : ChallengeAnswerMessage → Outgoing

abbrev pub default_supported_types : List Text
default_supported_types = codes "text" ∷ codes "multimedia" ∷ codes "product" ∷ []

abbrev pub default_supported_cards : List Text
default_supported_cards =
    codes "ads"
    ∷ codes "createCalendarEvent"
    ∷ codes "chart"
    ∷ codes "consentV2"
    ∷ codes "finance"
    ∷ codes "flashcard"
    ∷ codes "image"
    ∷ codes "local"
    ∷ []

abbrev pub default_supported_features : List Text
default_supported_features =
    codes "composer-prefill-conversation-action"
    ∷ codes "composer-send-conversation-action-v2"
    ∷ codes "short-conversation-action"
    ∷ codes "session-duration-nudge"
    ∷ []

abbrev at_version : Text → List Text → List (Text × Text)
at_version version [] = []
at_version version (name ∷ names) = (name, version) ∷ at_version version names

-- The map of the source, in the order in which it is written.
abbrev pub supported_ui_components : List (Text × Text)
supported_ui_components =
    at_version (codes "1.2") (
      codes "Text"
      ∷ codes "Row"
      ∷ codes "Col"
      ∷ codes "Box"
      ∷ codes "Title"
      ∷ codes "Caption"
      ∷ codes "Divider"
      ∷ codes "Spacer"
      ∷ codes "Icon"
      ∷ codes "Badge"
      ∷ codes "Image"
      ∷ codes "Card"
      ∷ codes "Markdown"
      ∷ codes "ListViewItem"
      ∷ codes "ListView"
      ∷ codes "Button"
      ∷ [])
    ++ at_version (codes "1.3")
        (codes "Map" ∷ codes "Table" ∷ codes "Table.Row" ∷ codes "Table.Cell" ∷ [])

-- defaultSetOptions
abbrev pub default_set_options : SetOptionsMessage
default_set_options = record {
  event = codes "setOptions";
  supported_cards = default_supported_cards;
  ads = record {
    supported_types = default_supported_types;
    opt_out_of_personalization = true;
    tags_supported = false;
  };
  supported_actions = [];
  supported_features = default_supported_features;
  supported_ui_components = supported_ui_components;
}

abbrev pub image_item : Text → SendContent
image_item url = record { kind = codes "image"; text = []; url = url }

abbrev pub text_item : Text → SendContent
text_item text = record { kind = codes "text"; text = text; url = [] }

-- The loop of newSendMessage and the text after it.
send_content : Text → List Text → List SendContent
send_content text [] = text_item text ∷ []
send_content text (url ∷ urls) =
    let rest = send_content text urls in if is_empty url then rest else image_item url ∷ rest

-- newSendMessage
unfoldable pub new_send_message : ⦃u : Unicode⦄ → Text → Text → Text → List Text → SendMessage
unfolding send_content protocol_mode_and_product
new_send_message text conversation_id model image_urls =
    let (mode, product) = protocol_mode_and_product model in
    record {
      event = codes "send";
      content = send_content text image_urls;
      conversation_id = conversation_id;
      mode = mode;
      product = product;
    }

-- newChallengeAnswer
abbrev pub new_challenge_answer : Text → ChallengeAnswerMessage
new_challenge_answer a = record { event = codes "answer"; answer = a }

-- buildWebSocketURL, with what it uses of package net/url and a fresh UUID: the URL and the session ID
unfoldable pub build_web_socket_url :
    {Url : Type 0}
    → (Text → Result Url)
    → (Text → Text → Url → Url)
    → (Url → Text)
    → Text
    → Text
    → Result (Text × Text)
build_web_socket_url parse set_query print uuid base_url =
    map_err (wrapped (codes "parse copilot websocket URL")) (parse base_url) >>= λ parsed. ok (
      print (
          set_query (codes "clientSessionId") uuid
            (set_query (codes "api-version") (codes "2") parsed)),
      uuid,
    )
