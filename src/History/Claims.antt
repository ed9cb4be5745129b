-- ===== src/History/Claims.antt =====
-- What `HistoryContext::new` puts into its entries.
use mathlib.Core.List.{reverse}
use momo_core.Prelude.{
  ℕ, ◌+◌, ◌≤◌, ◌≡◌, refl, sym, subst, Bool, false, Option, none, some, List, [], ◌∷◌, map, Text,
  lookup, discard, collect, arith, usize_max, Values, put-Values, All,
}
use momo_core.Context.Tokens.{ContextRequest}
use momo_core.Context.Prepare.{input_limit}
use momo_core.History.Messages.{
  Message, MessageContextPayload, user_images, tool_exchanges, MessageContext, ToolJson,
  gateway_tokens,
}
use momo_core.History.Evidence.{
  Entry, entry_parts, Claims, claim, new_entry, evidence_content, with_evidence, attach, new,
}
use momo_core.History.Expand.{prepare_context, expand}
use momo_core.History.Budget.{IsMeasured, StaysPlain, expand-within}
use momo_core.History.Images.{
  images_of, images_for, image_total, claim-images_for, claim-unsupported, images_for-reverse,
  images_for-discard, image_total-put,
}

module _ (json : ToolJson) where
  new_entry-image_count :
      (m : Message) (payload : MessageContextPayload)
      → (new_entry json m payload).image_count ≡ images_of (some payload)
  unfolding new_entry entry_parts
  new_entry-image_count m (user_images images) = refl
  new_entry-image_count m (tool_exchanges exchanges) = refl

  with_evidence-total :
      (m : Message) (found : Option MessageContextPayload) (entries : List (Text × Entry))
      → image_total (with_evidence json m found entries).1 ≤ images_of found + image_total entries
  with_evidence-total m none entries = omega arith
  with_evidence-total m (some payload) entries = omega (
    arith,
    image_total-put entries (evidence_content json m payload) (new_entry json m payload),
    new_entry-image_count m payload,
  )

  attach-total :
      (messages : List Message) (contexts : List (Text × MessageContextPayload))
      (entries : List (Text × Entry))
      → image_total (attach json messages contexts entries).1
        ≤ images_for contexts messages + image_total entries
  unfolding attach
  attach-total [] contexts entries = omega arith
  attach-total (m ∷ rest) contexts entries =
      let next = with_evidence json m (lookup contexts m.id) entries in
      omega (
        arith,
        attach-total rest (discard contexts m.id) next.1,
        images_for-discard contexts m.id rest,
        with_evidence-total m (lookup contexts m.id) entries,
      )

  with_evidence-IsMeasured :
      (m : Message) (found : Option MessageContextPayload) (entries : List (Text × Entry))
      → Values (IsMeasured json) entries
      → Values (IsMeasured json) (with_evidence json m found entries).1
  unfolding new_entry
  with_evidence-IsMeasured m none entries h = h
  with_evidence-IsMeasured m (some payload) entries h =
      put-Values (IsMeasured json) entries (evidence_content json m payload)
        (new_entry json m payload) h refl

  attach-IsMeasured :
      (messages : List Message) (contexts : List (Text × MessageContextPayload))
      (entries : List (Text × Entry))
      → Values (IsMeasured json) entries
      → Values (IsMeasured json) (attach json messages contexts entries).1
  unfolding attach
  attach-IsMeasured [] contexts entries h = h
  attach-IsMeasured (m ∷ rest) contexts entries h =
      attach-IsMeasured rest (discard contexts m.id)
        (with_evidence json m (lookup contexts m.id) entries).1
        (with_evidence-IsMeasured m (lookup contexts m.id) entries h)

  module _ (messages : List Message) (contexts : List MessageContext) (available : ℕ) where
    -- The entries of a history hold at most as many images as are available, and none if images are
    -- not supported.
    pub new-images :
        (supports : Bool)
        → (image_total (new json messages contexts supports available).entries ≤ available)
          × (supports ≡ false
              → image_total (new json messages contexts supports available).entries ≡ 0)
    unfolding new
    new-images supports =
        let start : Claims = record {
          contexts = collect [] (map (λ c. (c.message_id, c.payload)) contexts);
          remaining = available;
          omitted_blocks = 0;
        } in
        let kept = (claim supports (reverse messages) start).contexts in
        let total = attach-total messages kept [] in
        let turned = images_for-reverse kept messages in
        (
          omega (arith, total, turned, claim-images_for supports (reverse messages) start),
          λ off.
              let none_left : images_for kept (reverse messages) ≡ 0 =
                subst
                  (λ s.
                    images_for (claim s (reverse messages) start).contexts (reverse messages) ≡ 0)
                  (sym off) (claim-unsupported (reverse messages) start) in
              omega (arith, total, turned, none_left),
        )

    new-IsMeasured :
        (supports : Bool)
        → Values (IsMeasured json) (new json messages contexts supports available).entries
    unfolding new
    new-IsMeasured supports = attach-IsMeasured messages _ [] tt

    -- The messages that `expand` makes of the prompt prepared from a history, for a context window
    -- that fits 64 bits, cost at most what the prompt was estimated at, and so at most the input
    -- limit, provided that the messages of the request are those of the history, and that none of
    -- them which has no evidence becomes, shortened, the text of some evidence.
    pub new-expand_within :
        (supports : Bool) (request : ContextRequest)
        → request.messages ≡ (new json messages contexts supports available).messages
        → request.budget.context_window ≤ usize_max
        → All
            (StaysPlain (new json messages contexts supports available))
            (new json messages contexts supports available).messages
        → let history = new json messages contexts supports available in
          let prepared = prepare_context history request in
          (gateway_tokens json (expand history prepared).0.output ≤ prepared.estimated_input_tokens)
          × (prepared.estimated_input_tokens ≤ input_limit request.budget)
    new-expand_within supports request asked window plain =
        expand-within json (new json messages contexts supports available) (new-IsMeasured supports)
          request asked window plain
