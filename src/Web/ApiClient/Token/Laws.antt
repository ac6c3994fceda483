-- ===== src/Web/ApiClient/Token/Laws.antt =====
-- The token and its cookie agree, and a change of the user leaves no chat session of an earlier one.
use apply_agent.Prelude.{String, ◌≡◌, refl, Bool, Option, none, some, List, [], ◌∷◌, map_option}
use apply_agent.Web.ApiClient.Token.{
  Kept, set_chat_session_id, clear_chat_session_id, write_cookie, clear_cookie, set_token,
  clear_token,
}

pub data Event : Type 0 where
  signs_in : (https : Bool) → (token : String) → Event
  signs_out : Event
  chats : (session_id : String) → Event
  leaves_chat : Event

module _ (encode : String → String) where
  unfoldable pub after : Event → Kept → Kept
  after (signs_in https token) k = set_token encode https token k
  after signs_out k = clear_token k
  after (chats session_id) k = set_chat_session_id session_id k
  after leaves_chat k = clear_chat_session_id k

  unfoldable pub after_all : List Event → Kept → Kept
  after_all [] k = k
  after_all (e ∷ es) k = after_all es (after e k)

-- `user_of` is the user of a token, and `owner_of` the user whose chat session an id names; the
-- gateway gives both out.
module _ {User : Type 0} (user_of : String → User) (owner_of : String → User) where
  -- A chat session belongs to the user who is signed in.
  abbrev pub IsOwn : (chat_session token : Option String) → Type 0
  IsOwn none token = Unit
  IsOwn (some id) none = ⊥
  IsOwn (some id) (some token) = owner_of id ≡ user_of token

  -- Since the user last changed, each session id that was stored belongs to that user; `before` is
  -- this for what has happened so far. Ids that were stored under an earlier user do not matter.
  abbrev pub StoresOwn : List Event → (token : Option String) → (before : Type 0) → Type 0
  StoresOwn [] token before = before
  StoresOwn (signs_in https token' ∷ es) token before = StoresOwn es (some token') Unit
  StoresOwn (signs_out ∷ es) token before = StoresOwn es none Unit
  StoresOwn (chats id ∷ es) token before = StoresOwn es token (before × IsOwn (some id) token)
  StoresOwn (leaves_chat ∷ es) token before = StoresOwn es token before

  module _ (encode : String → String) where
    after_all-IsOwn :
        (es : List Event) (k : Kept) (before : Type 0)
        → (before → IsOwn k.chat_session k.token)
        → StoresOwn es k.token before
        → IsOwn (after_all encode es k).chat_session (after_all encode es k).token
    unfolding after_all after set_token clear_token write_cookie clear_cookie
    after_all-IsOwn [] k before own h = own h
    after_all-IsOwn (signs_in https token ∷ es) k before own h =
        after_all-IsOwn es _ Unit (λ u. u) h
    after_all-IsOwn (signs_out ∷ es) k before own h = after_all-IsOwn es _ Unit (λ u. u) h
    after_all-IsOwn (chats id ∷ es) k before own h =
        after_all-IsOwn es (set_chat_session_id id k) (before × IsOwn (some id) k.token) (λ b. b.1)
          h
    after_all-IsOwn (leaves_chat ∷ es) k before own h =
        after_all-IsOwn es (clear_chat_session_id k) before (λ b. tt) h

    after_all-cookie :
        (es : List Event) (k : Kept)
        → k.cookie ≡ map_option encode k.token
        → (after_all encode es k).cookie ≡ map_option encode (after_all encode es k).token
    unfolding after_all after set_token clear_token write_cookie clear_cookie
    after_all-cookie [] k h = h
    after_all-cookie (signs_in https token ∷ es) k h = after_all-cookie es _ refl
    after_all-cookie (signs_out ∷ es) k h = after_all-cookie es _ refl
    after_all-cookie (chats id ∷ es) k h = after_all-cookie es (set_chat_session_id id k) h
    after_all-cookie (leaves_chat ∷ es) k h = after_all-cookie es (clear_chat_session_id k) h

    -- Whoever signs in or out, in whatever order, from a browser on whose cookie is the token encoded,
    -- or missing with the token, and whose chat session, if any, belongs to the token's user: the
    -- cookie is so again; and if each chat session that is stored after the last change of the user
    -- belongs to the user signed in then, no session of an earlier user is left. A reply to an earlier
    -- user's message that is stored after that change does not meet the condition.
    pub after_all-Agrees :
        (es : List Event) (k : Kept)
        → k.cookie ≡ map_option encode k.token
        → IsOwn k.chat_session k.token
        → StoresOwn es k.token Unit
        → ((after_all encode es k).cookie ≡ map_option encode (after_all encode es k).token)
          × IsOwn (after_all encode es k).chat_session (after_all encode es k).token
    after_all-Agrees es k cookie own stores =
        (after_all-cookie es k cookie, after_all-IsOwn es k Unit (λ u. own) stores)
