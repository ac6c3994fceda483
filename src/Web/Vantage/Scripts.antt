-- ===== src/Web/Vantage/Scripts.antt =====
-- store.ts, `BUILDER_STAGES` and `MOCK_QS`: the scripts of the résumé builder and the mock interview.
use apply_agent.Prelude.{String, List, [], ◌∷◌}

pub record AgentState : Type 0 where
  pub label : String
  pub state : String

-- Missing `agents` are `[]`.
pub record BuilderStage : Type 0 where
  pub text : String
  pub agents : List AgentState
  pub chips : List String

pub record MockQuestion : Type 0 where
  pub question : String
  pub chips : List String
  pub sample : String
  pub feedback : String

abbrev pub builder_stages : List BuilderStage
builder_stages =
    (record {
      text =
          "I've read your résumé, Jordan — strong material to work with. Before I tailor anything, let's get your positioning sharp. First: are you aiming to stay a senior individual contributor, or step toward lead / staff?";
      agents =
          (record { label = "Résumé parser"; state = "done" })
          ∷ (record { label = "Skill extractor"; state = "done" })
          ∷ [];
      chips = "Senior IC" ∷ "Lead / Staff" ∷ "Open to both" ∷ [];
    })
    ∷ (record {
      text =
          "Good. I'll lead with scope and ownership. Now the spine — what's the one project you're proudest of? I'll build the résumé around it.";
      agents = [];
      chips = "The 40k-team collab redesign" ∷ "The design-system overhaul" ∷ [];
    })
    ∷ (record {
      text =
          "On it — rewriting your top bullets to lead with outcomes instead of tasks. One call: keep your understated tone, or sharpen the language?";
      agents =
          (record { label = "Impact writer"; state = "done" })
          ∷ (record { label = "Metric finder"; state = "done" })
          ∷ [];
      chips = "Keep my tone" ∷ "Sharpen it" ∷ [];
    })
    ∷ (record {
      text =
          "Done. I reordered for impact, quantified what I could, and tightened every line. Your profile on the right is what I'll tailor against every role from now on.";
      agents = (record { label = "Profile compiler"; state = "done" }) ∷ [];
      chips = [];
    })
    ∷ []

abbrev pub mock_questions : List MockQuestion
mock_questions =
    (record {
      question =
          "Thanks for making the time. To start — walk me through a project you're genuinely proud of.";
      chips =
          "Lead with the 40k-team collab redesign + the 60% metric"
          ∷ "Start from the user problem, then the outcome" ∷ [];
      sample =
          "I led the real-time collaboration redesign used by 40k teams — cut handoff time 60%.";
      feedback =
          "Strong open. You led with the metric early — exactly right. Next time, name the user problem in one sentence before the solution.";
    })
    ∷ (record {
      question = "How do you handle disagreement with engineering when timelines are tight?";
      chips =
          "Treat constraints as design input, give a concrete example"
          ∷ "Show how I de-risk with a smaller first cut" ∷ [];
      sample =
          "I treat constraints as input — once, eng pushed back on a flow, so we shipped a smaller cut first and measured.";
      feedback =
          "Good — you framed constraints as input, not obstacles. The concrete example landed. Tighten it: one situation, one decision, one result.";
    })
    ∷ (record {
      question = "Why Stripe, specifically?";
      chips =
          "Tie their docs-as-product philosophy to my obsession with detail"
          ∷ "Connect it to the role, not just the brand" ∷ [];
      sample =
          "Stripe treats documentation and detail as design surfaces — that obsessiveness is how I already work.";
      feedback =
          "That's the right instinct — you connected their philosophy to how you work, not just praise. Specific and credible.";
    })
    ∷ (record {
      question = "Tell me about a time a design of yours failed. What happened?";
      chips =
          "Own it plainly, then show what you changed"
          ∷ "Pick a real miss with a measurable correction" ∷ [];
      sample =
          "An onboarding flow I shipped tanked activation 8%. I owned it, ran the research I skipped, and recovered it +40%.";
      feedback =
          "Excellent — you owned it without hedging and showed the correction with a number. That honesty reads as senior.";
    })
    ∷ (record {
      question = "Where do you want to grow over the next two years?";
      chips =
          "Name one real edge and show momentum"
          ∷ "Tie growth to the role, not just generic ambition" ∷ [];
      sample =
          "Front-end fluency — I've been shipping small PRs so I can prototype in code, not just Figma.";
      feedback =
          "Well judged. A real edge plus visible momentum beats a polished non-answer every time. You're ready for the room.";
    })
    ∷ []
