-- ===== src/Web/Vantage/DemoJobs.antt =====
-- store.ts, `JOBS`: the jobs of the demonstration.
use apply_agent.Prelude.{ℕ, String, Bool, true, false, Option, none, some, List, [], ◌∷◌}

pub record Answered : Type 0 where
  pub question : String
  pub answer : String

-- A missing flag or list is `false` or `[]`.
pub record Job : Type 0 where
  pub id : String
  pub mono : String
  pub co : String
  pub role : String
  pub match_score : ℕ
  pub location : String
  pub salary : Option String
  pub is_ready : Bool
  pub external : Bool
  pub domain : Option String
  pub slug : Option String
  pub why_short : Option String
  pub why_bullets : List String
  pub resume_bullets : List String
  pub cover_letter : Option String
  pub qa : List Answered

abbrev pub demo_jobs : List Job
demo_jobs =
    (record {
      id = "linear";
      mono = "L";
      co = "Linear";
      role = "Senior Product Designer";
      match_score = 96;
      location = "Remote";
      salary = some "$180–210k";
      is_ready = true;
      external = false;
      domain = none;
      slug = none;
      why_short = none;
      why_bullets =
          "7 years in product design — the role asks for 5+."
          ∷ "Led design-systems work, a core responsibility here."
          ∷ "Shipped 0→1 collaboration tools, matching their roadmap." ∷ [];
      resume_bullets =
          "Led the redesign of a real-time collaboration tool used by 40k teams."
          ∷ "Built a design system that cut design-to-dev handoff time by 60%."
          ∷ "7 years spanning 0→1 and scale-stage product design." ∷ [];
      cover_letter =
          some
            "Dear Linear team,\n\nI've spent seven years designing tools where speed and craft both matter — and Linear is the rare product that refuses to trade one for the other. I'd love to help shape what comes next.\n\nMy work on real-time collaboration at scale maps closely to the problems on your roadmap, and I move fast without losing the details.\n\nWarmly,\nJordan";
      qa =
          (record {
            question = "Why are you interested in this role?";
            answer =
                "Linear's focus on speed and craft mirrors how I already work — I want to build for a team that treats the tool itself as the product.";
          })
          ∷ (record {
            question = "Expected compensation?";
            answer = "$180–210k base, flexible for the right team and equity mix.";
          })
          ∷ [];
    })
    ∷ (record {
      id = "ramp";
      mono = "R";
      co = "Ramp";
      role = "Staff Product Designer";
      match_score = 93;
      location = "NYC / Remote";
      salary = some "$200–240k";
      is_ready = true;
      external = false;
      domain = none;
      slug = none;
      why_short = none;
      why_bullets =
          "Staff-level scope matches your 7 years of leadership."
          ∷ "Fintech-adjacent work on dashboards and data-dense UI."
          ∷ "Strong track record mentoring designers." ∷ [];
      resume_bullets =
          "Owned the analytics surface for a 40k-team product."
          ∷ "Mentored 4 designers from mid to senior."
          ∷ "Drove a pricing-page redesign that lifted conversion 18%." ∷ [];
      cover_letter =
          some
            "Dear Ramp team,\n\nI build clarity into dense, high-stakes interfaces — exactly the challenge finance teams live with daily. I'd be excited to bring that to Ramp at staff level.\n\nWarmly,\nJordan";
      qa =
          (record {
            question = "Why are you interested in this role?";
            answer =
                "Ramp ships fast and respects design — a combination I want to operate inside at staff scope.";
          })
          ∷ (record {
            question = "Expected compensation?";
            answer = "$200–240k base, open on equity.";
          })
          ∷ [];
    })
    ∷ (record {
      id = "vercel";
      mono = "V";
      co = "Vercel";
      role = "Design Lead";
      match_score = 91;
      location = "Remote";
      salary = none;
      is_ready = false;
      external = true;
      domain = some "vercel";
      slug = some "design-lead";
      why_short =
          some
            "Vercel sets the bar for developer experience, and I want to lead design where craft and performance are the product.";
      why_bullets = [];
      resume_bullets = [];
      cover_letter = none;
      qa = [];
    })
    ∷ (record {
      id = "notion";
      mono = "N";
      co = "Notion";
      role = "Senior UX Designer";
      match_score = 88;
      location = "San Francisco";
      salary = some "$170–200k";
      is_ready = true;
      external = false;
      domain = none;
      slug = none;
      why_short = none;
      why_bullets =
          "Deep experience designing flexible, content-first tools."
          ∷ "Strong systems thinking for modular interfaces."
          ∷ "Comfortable balancing power and simplicity." ∷ [];
      resume_bullets =
          "Designed a modular block-based editor used daily by 12k people."
          ∷ "Simplified onboarding, cutting time-to-first-value by 40%."
          ∷ "7 years across consumer and prosumer software." ∷ [];
      cover_letter =
          some
            "Dear Notion team,\n\nThe hardest design problem is making something powerful feel simple — it's the problem I most enjoy. Notion lives at that edge, and I'd love to help.\n\nWarmly,\nJordan";
      qa =
          (record {
            question = "Why are you interested in this role?";
            answer =
                "Notion balances power and simplicity better than almost anyone — that's the work I want to be doing.";
          })
          ∷ (record { question = "Expected compensation?"; answer = "$170–200k base." })
          ∷ [];
    })
    ∷ (record {
      id = "stripe";
      mono = "S";
      co = "Stripe";
      role = "Product Designer";
      match_score = 84;
      location = "Remote";
      salary = none;
      is_ready = false;
      external = true;
      domain = some "stripe";
      slug = some "product-designer";
      why_short =
          some
            "Stripe treats documentation and detail as design surfaces — that obsessiveness is exactly how I work.";
      why_bullets = [];
      resume_bullets = [];
      cover_letter = none;
      qa = [];
    })
    ∷ []
