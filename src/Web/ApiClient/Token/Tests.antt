-- ===== src/Web/ApiClient/Token/Tests.antt =====
-- A browser with two users, and the witness of the theorem about what it keeps.
use apply_agent.Prelude.{
  String, ◌==◌, ◌||◌, Bool, List, ◌≡◌, refl, true, false, none, some, [], ◌∷◌,
}
use apply_agent.Web.ApiClient.Token.{
  Kept, set_token, clear_token, write_cookie, clear_cookie, get_chat_session_id,
}
use apply_agent.Web.ApiClient.Token.Laws.{
  signs_in, signs_out, chats, Event, after, after_all, IsOwn, after_all-Agrees,
}

abbrev encode : String → String
encode s = s

abbrev new_browser : Kept
new_browser = record { token = none; cookie = none; secure = false; chat_session = none }

-- t1 and the session s1 are the first user's, all else is the second one's.
abbrev user : String → Bool
user name = (name == "t1") || (name == "s1")

-- The reply s1 comes after the first user has signed out, and the login of the second one clears it.
abbrev two_users : List Event
two_users =
    signs_in true "t1" ∷ chats "s1" ∷ signs_out ∷ chats "s1" ∷ signs_in true "t2" ∷ chats "s2" ∷ []

after_all-Agrees_example :
    ((after_all encode two_users new_browser).cookie ≡ some "t2")
    × IsOwn user user
        (after_all encode two_users new_browser).chat_session
        (after_all encode two_users new_browser).token
unfolding after_all after set_token clear_token write_cookie clear_cookie
after_all-Agrees_example =
    after_all-Agrees user user encode two_users new_browser refl tt (tt, refl)

-- A reply that comes after the login stores the earlier user's session.
late_reply_is_stored :
    get_chat_session_id
      (after_all encode (signs_in true "t1" ∷ signs_in true "t2" ∷ chats "s1" ∷ []) new_browser)
    ≡ some "s1"
unfolding after_all after set_token write_cookie
late_reply_is_stored = refl

-- A login starts without a chat session, with or without a sign-out before it.
login_starts_afresh :
    get_chat_session_id
      (set_token encode true "t2" (record new_browser { chat_session = some "s1" }))
    ≡ none
unfolding set_token write_cookie
login_starts_afresh = refl
