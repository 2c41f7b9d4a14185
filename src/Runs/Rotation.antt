-- ===== src/Runs/Rotation.antt =====
-- Rotation retires one token and issues another, and sign-in never adopts a token that it was shown.
use ratline.Prelude.{
  ℕ, ◌≤◌, ◌<◌, ◌≡◌, refl, sym, ap, ap₂, ◌∙◌, Bool, true, false, String, List, [], ◌∷◌, Option, none,
  some, any, str_eq, lt→ltb, arith, Bool-cases, inl, inr, Among, find, find-Among,
}
use ratline.Authz.Can.{AuthzContext}
use ratline.Sessions.Table.{
  SessionEndReason, Session, Store, is_member, is_live, has_hash, update_where,
}
use ratline.Sessions.Statements.{
  NewSession, session_of, Written, not_a_member, constraint_violated, written, violates,
  write_session, use_session_token, seen, is_row_of, ended_by, to_end, end_sessions,
  SessionReplacement, Replaced, nothing_to_replace, replacement_failed, replaced, replaced_by,
  replace_first, replace_session, successor_of,
}
use ratline.Sessions.SignIn.{IssuedSession, Minted}
use ratline.Sessions.Ending.{
  rotation_failed, nothing_rotated, rotated_to, RotationInput, rotation_of, rotate_session,
}
use ratline.Sessions.Rows.{
  str_eq_refl, update_where-any-true, find-test, updated_rows-none, updated_rows-some,
}
use ratline.Runs.Sessions.{accepts, Spent, Spent-later, use_session_token-none, digest_is_new}

-- What an insert that succeeded wrote.
pub write_session-written :
    (store : Store) (org : String) (started : ℕ) (id : String) (input : NewSession) (row : Session)
    (after : Store)
    → write_session store org started id input ≡ written row after
    → (violates (session_of org started id input) store.sessions ≡ false)
      × (row ≡ session_of org started id input)
      × (after.sessions ≡ session_of org started id input ∷ store.sessions)
unfolding write_session
write_session-written store org started id input row after h =
    elim (Bool-cases (is_member org input.user_id store.memberships)) [
      | inr e ↦ absurd (let k = rw e at h in cc k)
      | inl e ↦ elim (Bool-cases (violates (session_of org started id input) store.sessions)) [
        | inl k ↦ absurd (let g = rw (e, k) at h in cc g)
        | inr k ↦
            let g : written (session_of org started id input)
                  (record store { sessions = session_of org started id input ∷ store.sessions })
                ≡ written row after =
              rw (e, k) at h in
            (k, sym (cc g), ap (λ s. s.sessions) (sym (stores g)))
      ]
    ]
  where
    stores : {r q : Session} {s t : Store} → written r s ≡ written q t → s ≡ t
    stores g = cc g

-- Ending the sessions under a digest leaves none that accepts it.
pub end_sessions-accepts :
    (org token_hash : String) (now : ℕ) (reason : SessionEndReason) (rows : List Session)
    → any (accepts org token_hash now) (
        update_where
          (to_end org now (λ s. str_eq s.token_hash token_hash))
          (ended_by now reason)
          rows)
      ≡ false
unfolding is_live has_hash
end_sessions-accepts org token_hash now reason [] = refl
end_sessions-accepts org token_hash now reason (s ∷ rows) =
    let rest = end_sessions-accepts org token_hash now reason rows in
    elim (Bool-cases (to_end org now (λ s. str_eq s.token_hash token_hash) s)) [
      | inl e ↦ rw e (ground (arith, rest))
      | inr e ↦ rw e (ground (arith, rest, e))
    ]

-- The row at the head is the one that a token under its digest uses while it lives.
use_session_token-head :
    (digest : String → String) (store : Store) (ctx : AuthzContext) (now : ℕ) (token : String)
    (row : Session) (rows : List Session)
    → store.sessions ≡ row ∷ rows
    → accepts ctx.org_id (digest token) now row ≡ true
    → (use_session_token digest store ctx now token).0 ≡ some (seen now row)
unfolding use_session_token has_hash
use_session_token-head digest store ctx now token row rows e h =
    let own : is_row_of ctx.org_id (some row) row ≡ true = ground (arith, h, str_eq_refl row.id) in
    rw (e, h, own) refl

replaced_by-replaced :
    (old ended begun : Session) (w : Written) (after : Store)
    → replaced_by old w ≡ replaced ended begun after
    → (old ≡ ended) × (w ≡ written begun after)
replaced_by-replaced old ended begun not_a_member after h = absurd (cc h)
replaced_by-replaced old ended begun constraint_violated after h = absurd (cc h)
replaced_by-replaced old ended begun (written row store) after h =
    (cc h, ap₂ written (cc h) (stores h))
  where
    stores : {a b c d : Session} {s t : Store} → replaced a b s ≡ replaced c d t → s ≡ t
    stores g = cc g

-- A new row under another digest accepts nothing of the old one.
pub Spent-new :
    (org old_hash : String) (now started : ℕ) (tenant id : String) (new : NewSession)
    (rows : List Session)
    → str_eq new.token_digest old_hash ≡ false
    → Spent org old_hash now rows
    → Spent org old_hash now (session_of tenant started id new ∷ rows)
unfolding has_hash
Spent-new org old_hash now started tenant id new rows other (taken, quiet) =
    (ground (arith, other, taken), ground (arith, other, quiet))

-- A replacement ended the sessions under the old digest and put the new one before them.
replace_first-replaced :
    (org old_hash : String) (started now : ℕ) (id : String) (input : SessionReplacement)
    (row : Option Session) (store : Store) (ended begun : Session) (after : Store)
    → Spent org old_hash now store.sessions
    → replace_first org started id input row store ≡ replaced ended begun after
    → (row ≡ some ended)
      × (begun ≡ session_of org started id (successor_of ended input))
      × (after.sessions ≡ begun ∷ store.sessions)
      × Spent org old_hash now after.sessions
replace_first-replaced org old_hash started now id input none store ended begun after spent h =
    absurd (cc h)
replace_first-replaced org old_hash started now id input (some old) store ended begun after
      (taken, quiet) h =
    let (same, wrote) =
      replaced_by-replaced old ended begun
        (write_session store org started id (successor_of old input)) after h in
    let (fits, made, holds) =
      write_session-written store org started id (successor_of old input) begun after wrote in
    let other =
      digest_is_new (session_of org started id (successor_of old input)) store.sessions old_hash
        fits taken in
    (
      ap some same,
      made ∙ ap (λ s. session_of org started id (successor_of s input)) same,
      holds ∙ ap (λ r. r ∷ store.sessions) (sym made),
      rw holds (
          Spent-new org old_hash now started org id (successor_of old input) store.sessions other
            (taken, quiet)),
    )

live_taken :
    (org : String) (now : ℕ) (token_hash : String) (rows : List Session)
    → any (to_end org now (λ s. str_eq s.token_hash token_hash)) rows ≡ true
    → any (λ s. str_eq s.token_hash token_hash) rows ≡ true
live_taken org now token_hash [] h = absurd (cc h)
live_taken org now token_hash (s ∷ rows) h = ground (arith, live_taken org now token_hash rows)

-- Where a replacement happened, the digest was taken, and it is spent from then on.
replace_session-replaced :
    (digest : String → String) (store : Store) (ctx : AuthzContext) (started now : ℕ) (id : String)
    (input : SessionReplacement) (ended begun : Session) (after : Store)
    → replace_session digest store ctx started now id input ≡ replaced ended begun after
    → (old : Session) × (ended ≡ ended_by now input.reason old)
      × (to_end ctx.org_id now (λ s. str_eq s.token_hash (digest input.presented_token)) old ≡ true)
      × (find
            (to_end ctx.org_id now (λ s. str_eq s.token_hash (digest input.presented_token)))
            store.sessions
          ≡ some old)
      × (begun ≡ session_of ctx.org_id started id (successor_of ended input))
      × (rest : List Session) × (after.sessions ≡ begun ∷ rest)
      × Spent ctx.org_id (digest input.presented_token) now after.sessions
unfolding replace_session end_sessions
replace_session-replaced digest store ctx started now id input ended begun after h =
    let p : Session → Bool =
      to_end ctx.org_id now (λ s. str_eq s.token_hash (digest input.presented_token)) in
    elim (Bool-cases (any p store.sessions)) [
      | inr none_live ↦ absurd (
          let g =
            rw (updated_rows-none p (ended_by now input.reason) store.sessions none_live) at h in
          cc g)
      | inl live ↦
          let (old, first, found) =
            updated_rows-some p (ended_by now input.reason) store.sessions live in
          let taken : any (λ s. str_eq s.token_hash (digest input.presented_token)) store.sessions
              ≡ true =
            live_taken ctx.org_id now (digest input.presented_token) store.sessions live in
          let spent : Spent ctx.org_id (digest input.presented_token) now
              (update_where p (ended_by now input.reason) store.sessions) =
            (
              update_where-any-true (λ s. str_eq s.token_hash (digest input.presented_token)) p
                  (ended_by now input.reason) store.sessions (λ s e k. k) taken,
              end_sessions-accepts ctx.org_id (digest input.presented_token) now input.reason
                  store.sessions,
            ) in
          let (row, made, holds, after_spent) =
            replace_first-replaced ctx.org_id (digest input.presented_token) started now id input _
              _ ended begun after spent h in
          let both : some ended ≡ some (ended_by now input.reason old) = sym row ∙ first in
          (
            old,
            cc both,
            (find-test p store.sessions old found).0,
            found,
            made,
            update_where p (ended_by now input.reason) store.sessions,
            holds,
            after_spent,
          )
    ]

rotation_of-rotated_to :
    (token : String) (store : Store) (r : Replaced) (issued : IssuedSession) (after : Store)
    → rotation_of token store r ≡ (rotated_to issued, after)
    → (ended : Session) × (r ≡ replaced ended issued.session after) × (issued.token ≡ token)
rotation_of-rotated_to token store nothing_to_replace issued after h =
    absurd (let k : nothing_rotated ≡ rotated_to issued = ap (λ p. p.0) h in cc k)
rotation_of-rotated_to token store replacement_failed issued after h =
    absurd (let k : rotation_failed ≡ rotated_to issued = ap (λ p. p.0) h in cc k)
rotation_of-rotated_to token store (replaced ended started store_after) issued after h =
    let k : rotated_to (record { session = started; token = token }) ≡ rotated_to issued =
      ap (λ p. p.0) h in
    let same = the_issued k in
    (
      ended,
      ap₂ (replaced ended) (ap (λ i. i.session) same) (ap (λ p. p.1) h),
      sym (ap (λ i. i.token) same),
    )
  where
    the_issued : {a b : IssuedSession} → rotated_to a ≡ rotated_to b → a ≡ b
    the_issued g = cc g

accepts_unrevoked :
    (org token_hash : String) (now : ℕ) (s : Session)
    → s.org_id ≡ org
    → s.token_hash ≡ token_hash
    → s.revoked_at ≡ none
    → now < s.expires_at
    → accepts org token_hash now s ≡ true
unfolding has_hash is_live
accepts_unrevoked org token_hash now s o h r lt =
    rw (o, h, r, str_eq_refl org, str_eq_refl token_hash, lt→ltb now s.expires_at lt) refl

-- A rotation that issued a session found a live one of the table under the presented token, and the
-- new session is the successor of that one: of the same person, and it names it. From that instant on the presented
-- token is refused at every instant, and before the new session expires its token uses that session.
pub rotate_session-rotated_to :
    (digest : String → String) (store : Store) (ctx : AuthzContext) (now date_now : ℕ)
    (minted : Minted) (token : String) (reason : SessionEndReason) (input : RotationInput)
    (issued : IssuedSession) (after : Store) (later at : ℕ)
    → rotate_session digest store ctx now date_now minted token reason input
      ≡ (rotated_to issued, after)
    → now ≤ later
    → at < issued.session.expires_at
    → ((old : Session) × Among old store.sessions
        × (accepts ctx.org_id (digest token) now old ≡ true)
        × (issued.session.user_id ≡ old.user_id)
        × (issued.session.rotated_from ≡ some old.id))
      × ((use_session_token digest after ctx later token).0 ≡ none)
      × ((use_session_token digest after ctx at issued.token).0 ≡ some (seen at issued.session))
unfolding rotate_session has_hash is_live
rotate_session-rotated_to digest store ctx now date_now minted token reason input issued after later
      at h le lives =
    let (ended, r, t) = rotation_of-rotated_to minted.token store _ issued after h in
    let (old, end, was_live, found, begun, rest, holds, spent) =
      replace_session-replaced digest store ctx now now minted.row_id _ ended issued.session after
        r in
    let dead = (Spent-later ctx.org_id (digest token) now later after.sessions le spent).1 in
    (
      (
        old,
        (find-Among _ store.sessions old found).0,
        ground (arith, was_live),
        ap (λ s. s.user_id) begun ∙ ap (λ s. s.user_id) end,
        ap (λ s. s.rotated_from) begun ∙ ap (λ s. some s.id) end,
      ),
      (use_session_token-none digest after ctx later token).1 dead,
      use_session_token-head digest after ctx at issued.token issued.session rest holds (
          accepts_unrevoked ctx.org_id (digest issued.token) at issued.session
            (ap (λ s. s.org_id) begun) (ap (λ s. s.token_hash) begun ∙ ap digest (sym t))
            (ap (λ s. s.revoked_at) begun) lives),
    )
