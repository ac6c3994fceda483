-- ===== src/AgentEvents/Feed/Laws.antt =====
-- What the cap on a step's feed keeps and what it drops.
use apply_agent.Prelude.{
  ℕ, ◌+◌, ◌-◌, ◌≤◌, ◌≡◌, sym, ap, inl, inr, List, [], ◌∷◌, ◌++◌, length, take, drop, ltb,
  length-append, length-take, length-drop, take-append-drop, drop-drop, Bool-cases, arith, false,
  ◌∙◌,
}
use apply_agent.AgentEvents.Events.{AgentEvent}
use apply_agent.AgentEvents.Feed.{append_feed, truncation_sentinel}

-- A feed never grows past the cap, whatever its length was.
pub append_feed-bound :
    (feed : List AgentEvent) (evt : AgentEvent) → length (append_feed feed evt) ≤ 200
unfolding append_feed
append_feed-bound feed evt = elim (Bool-cases (ltb (length feed) 200)) [
  | inl short ↦ rw short (ground (arith, length-append feed (evt ∷ [])))
  | inr long ↦ rw long (
      ground (
        arith,
        length-append (take 50 feed) (
            truncation_sentinel (length feed - 50 - 49)
            ∷ (drop (length feed - 50 + 1) feed ++ (evt ∷ []))),
        length-append (drop (length feed - 50 + 1) feed) (evt ∷ []),
        length-take 50 feed,
        length-drop (length feed - 50 + 1) feed,
      ))
]

pub append_feed_short :
    (feed : List AgentEvent) (evt : AgentEvent)
    → length feed + 1 ≤ 200
    → append_feed feed evt ≡ feed ++ (evt ∷ [])
unfolding append_feed
append_feed_short feed evt h = ground arith

-- A full feed falls into a head of 50 events, a middle part and the last 49 events; the middle part
-- is replaced by a sentinel that carries its length, and the new event stands at the end.
pub record IsCollapsed (feed : List AgentEvent) (evt : AgentEvent) (out : List AgentEvent)
    : Type 0 where
  pub front : List AgentEvent
  pub middle : List AgentEvent
  pub back : List AgentEvent
  pub splits : feed ≡ front ++ (middle ++ back)
  pub length_front : length front ≡ 50
  pub length_back : length back ≡ 49
  pub collapsed : out ≡ front ++ (truncation_sentinel (length middle) ∷ (back ++ (evt ∷ [])))

pub append_feed-IsCollapsed :
    (feed : List AgentEvent) (evt : AgentEvent)
    → 200 ≤ length feed
    → IsCollapsed feed evt (append_feed feed evt)
unfolding append_feed
append_feed-IsCollapsed feed evt h =
    let rest = drop 50 feed in
    let n : ℕ = length feed - 50 - 49 in
    let full : ltb (length feed) 200 ≡ false = ground arith in
    let len_rest = length-drop 50 feed in
    let len_mid : length (take n rest) ≡ n = omega (arith, length-take n rest) in
    let same_back : drop n rest ≡ drop (length feed - 50 + 1) feed =
      drop-drop 50 n feed ∙ ap (λ k. drop k feed) (omega arith) in
    record {
      front = take 50 feed;
      middle = take n rest;
      back = drop n rest;
      splits = rw (take-append-drop n rest) (sym (take-append-drop 50 feed));
      length_front = omega (arith, length-take 50 feed);
      length_back = omega (arith, length-drop n rest);
      collapsed = rw (full, len_mid, same_back);
    }
