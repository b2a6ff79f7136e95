-- ===== src/HandlerInvoker/Laws.antt =====
-- Which handler a call reaches.
use network_application.Base.{
  ◌≡◌, sym, ap, inl, inr, Option, none, some, if◌then◌else◌, Bool-cases, Option-cases,
}
use network_application.Base.Outcome.{returns}
use network_application.Base.Table.{Eq, lookup, lookup-insert_new}
use network_application.HandlerInvoker.{
  Handler, HandlerInvoker, invoke_handler_impl, assign_from, invoke_default, invoke_found,
  register_handler, invoke_handler,
}

module _ {K A R : Type 0} ⦃e : Eq K⦄ where
  -- After registerHandler(k, h) a call for a key that had a handler reaches that handler; a call for
  -- k, where k had none, reaches h; any other call is as before.
  pub invoke_handler-register_handler :
      (i : HandlerInvoker K A R) (k j : K) (h : Handler K A R) (ret : Option R) (a : A)
      → invoke_handler (register_handler i k h) ret j a ≡ elim (lookup j i.table) [
        | some old ↦ returns (invoke_handler_impl old j a)
        | none ↦
            if e.beq k j
            then returns (invoke_handler_impl h j a)
            else invoke_default i.default_handler ret j a
      ]
  unfolding invoke_handler register_handler
  invoke_handler-register_handler i k j h ret a = elim (Option-cases (lookup j i.table)) [
    | inr (old, found) ↦ rw (lookup-insert_new k j h i.table, found)
    | inl missing ↦ elim (Bool-cases (e.beq k j)) [
      | inl same ↦ rw (lookup-insert_new k j h i.table, missing, same)
      | inr differs ↦ rw (lookup-insert_new k j h i.table, missing, differs)
    ]
  ]

  -- After an assignment a call is answered as by the source where the source has a handler for the
  -- key or a default handler. Where it has neither, the target's old default handler answers.
  pub invoke_handler-assign_from :
      (i other : HandlerInvoker K A R) (ret : Option R) (k : K) (a : A)
      → invoke_handler (assign_from i other) ret k a ≡ elim other.default_handler [
        | some d ↦ invoke_handler other ret k a
        | none ↦ invoke_found (lookup k other.table) i.default_handler ret k a
      ]
  unfolding invoke_handler assign_from
  invoke_handler-assign_from i other ret k a = elim (Option-cases other.default_handler) [
    | inl lacks ↦ rw lacks
    | inr (d, has) ↦ rw has (ap (λ x. invoke_found (lookup k other.table) x ret k a) (sym has))
  ]

  -- After registerHandler(k, h) a call for a key that had a handler reaches that handler, a call for k,
  -- where k had none, reaches h, and any other call is as before. After an assignment a call is answered
  -- as by the source where the source has a default handler; where it has none, a key without a handler
  -- is answered by the target's old default handler.
  pub invoke_handler-updates :
      (i other : HandlerInvoker K A R) (ret : Option R) (k j : K) (h : Handler K A R) (a : A)
      → (invoke_handler (register_handler i k h) ret j a ≡ elim (lookup j i.table) [
        | some old ↦ returns (invoke_handler_impl old j a)
        | none ↦
            if e.beq k j
            then returns (invoke_handler_impl h j a)
            else invoke_default i.default_handler ret j a
      ])
        × (invoke_handler (assign_from i other) ret j a ≡ elim other.default_handler [
          | some d ↦ invoke_handler other ret j a
          | none ↦ invoke_found (lookup j other.table) i.default_handler ret j a
        ])
  invoke_handler-updates i other ret k j h a =
      (invoke_handler-register_handler i k j h ret a, invoke_handler-assign_from i other ret j a)
