-- ===== src/Api/Memory.antt =====
-- A store in memory that fills the Redis interface, for the tests; no key expires by itself.
use apply_agent.Prelude.{
  ℕ, suc, refl, String, ◌==◌, Bool, true, false, Option, none, some, pos, is_some, if◌then◌else◌,
  eq_refl,
}
use apply_agent.Api.Errors.{ok}
use apply_agent.Api.Redis.{Redis, Counts, Stores, Holds}

pub record Memory : Type 0 where
  pub values : String → Option String
  pub counts : String → ℕ
  pub ttls : String → Bool

abbrev pub no_keys : Memory
no_keys = record { values = λ _. none; counts = λ _. 0; ttls = λ _. false }

abbrev pub memory : Redis
memory = record {
  State = Memory;
  get = λ k s. (s, ok (s.values k));
  set_ex = λ k v t s. (record s { values = λ j. if k == j then some v else s.values j }, ok tt);
  incr = λ k s. (
    record s { counts = λ j. if k == j then suc (s.counts j) else s.counts j },
    ok (suc (s.counts k)),
  );
  expire = λ k t s. (record s { ttls = λ j. if k == j then true else s.ttls j }, ok tt);
  pttl = λ k s. (s, ok (pos 1500));
  del = λ k s. (
    record s { values = λ j. if k == j then none else s.values j },
    ok (if is_some (s.values k) then 1 else 0),
  );
}

unfoldable pub memory_counts : Counts memory
memory_counts = record {
  count = λ k s. s.counts k;
  expires = λ k s. s.ttls k;
  incr_counts = λ k s. refl;
  count-incr = λ k s. rw (eq_refl k);
  expires-incr = λ k s h. refl;
  expire_works = λ k t s. refl;
  count-expire = λ k t s. refl;
  pttl_works = λ k s. (pos 1500, refl);
}

unfoldable pub memory_stores : Stores memory
memory_stores = record { set_works = λ k v t s. refl; get_written = λ k v t s. rw (eq_refl k) }

unfoldable pub memory_holds : Holds memory
memory_holds = record {
  texts = λ s. s.values;
  expire_now = λ k s. record s { values = λ j. if k == j then none else s.values j };
  get_holds = λ k s. refl;
  set_holds = λ k v t s. refl;
  texts-set = λ k v t s j. refl;
  del_holds = λ k s. (_, refl);
  texts-del = λ k s j. refl;
  texts-expire = λ k s j. refl;
}
