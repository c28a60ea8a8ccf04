-- ===== src/Process/Writer/Stdin.antt =====
-- What the server can read of the client's stdin.
use clustertest.Prelude.{
  ◌≡◌, refl, sym, ap, ◌∙◌, Bool, true, false, List, [], ◌∷◌, ◌++◌, map, Option, none, some, Error,
  append-nil, append_assoc, ◌⊎◌, inl, inr, Option-cases, arith,
}
use clustertest.Process.Types.{Bytes, Request}
use clustertest.Process.Stream.{
  payload, has_ended, payload-cons, has_ended-cons, read_on, read_on-append,
}
use clustertest.Process.Writer.{
  Wire, IsFaithful, Reader, contents, close, copy, first_message, stdin_message, stdin_done_message,
  stdin_writer, StartProcRequest, write_first_message, write_stdin, copy_stdin,
}

-- The bytes of stdin that a history of requests carries, and whether they end it.
abbrev pub stdin_payload : List Request → Bytes
stdin_payload = payload (λ m. m.stdin) (λ m. m.stdin_done)

abbrev pub stdin_ended : List Request → Bool
stdin_ended = has_ended (λ m. m.stdin) (λ m. m.stdin_done)

abbrev pub source : Option Reader → List Bytes
source none = []
source (some r) = r.chunks

stdin_payload-chunks :
    (bs : List Bytes) (past : List Request)
    → stdin_ended past ≡ false
    → (stdin_payload (read_on (map stdin_message bs) past) ≡ stdin_payload past ++ contents bs)
      × (stdin_ended (read_on (map stdin_message bs) past) ≡ false)
stdin_payload-chunks [] past o = (sym (append-nil _), o)
stdin_payload-chunks (b ∷ bs) past o = ground (
  arith,
  stdin_payload-chunks bs (stdin_message b ∷ past),
  payload-cons (λ (m : Request). m.stdin) (λ m. m.stdin_done) (stdin_message b) past,
  has_ended-cons (λ (m : Request). m.stdin) (λ m. m.stdin_done) (stdin_message b) past,
  append_assoc (stdin_payload past) b (contents bs),
)

stdin_done_adds :
    (past : List Request)
    → (stdin_payload (stdin_done_message ∷ past) ≡ stdin_payload past)
      × (stdin_ended (stdin_done_message ∷ past) ≡ true)
stdin_done_adds past = ground (
  arith,
  payload-cons (λ (m : Request). m.stdin) (λ m. m.stdin_done) stdin_done_message past,
  has_ended-cons (λ (m : Request). m.stdin) (λ m. m.stdin_done) stdin_done_message past,
  append-nil (stdin_payload past),
)

contents-append : (pre post : List Bytes) → contents (pre ++ post) ≡ contents pre ++ contents post
contents-append [] post = refl
contents-append (b ∷ pre) post =
    ap (λ r. b ++ r) (contents-append pre post) ∙ sym (append_assoc b _ _)

-- The connection takes every message.
abbrev pub NeverFails : Wire Request → Type 0
NeverFails W = (s : W.State) (m : Request) → (W.write s m).1 ≡ none

module _ (W : Wire Request) (f : IsFaithful W) where
  -- What `io.Copy` has sent is the first of the chunks, and all of them if no write fails.
  record Copied (bs : List Bytes) (before after : List Request) : Type 0 where
    pre : List Bytes
    post : List Bytes
    all : bs ≡ pre ++ post
    sent : after ≡ before ++ map stdin_message pre
    complete : NeverFails W → post ≡ []

  copy-Copied :
      (bs : List Bytes) (fault : Option Error) (s : W.State)
      → Copied bs (W.sent s) (W.sent (copy W stdin_writer bs fault s).1)
  unfolding copy
  copy-Copied [] fault s = record {
    pre = [];
    post = [];
    all = refl;
    sent = sym (append-nil _);
    complete = λ _. refl;
  }
  copy-Copied (b ∷ bs) fault s = elim (Option-cases (W.write s (stdin_message b)).1) [
    | inl e ↦
        let ih = copy-Copied bs fault (W.write s (stdin_message b)).0 in
        record {
          pre = b ∷ ih.pre;
          post = ih.post;
          all = ap (λ l. b ∷ l) ih.all;
          sent =
              rw (e, copy)
                (ih.sent
                  ∙ ap (λ l. l ++ map stdin_message ih.pre) (f.sent-write_ok s (stdin_message b) e)
                  ∙ append_assoc (W.sent s) (stdin_message b ∷ []) (map stdin_message ih.pre));
          complete = ih.complete;
        }
    | inr (x, e) ↦ record {
      pre = [];
      post = b ∷ bs;
      all = refl;
      sent = rw (e, copy) (f.sent-write_err s (stdin_message b) x e ∙ sym (append-nil _));
      complete = λ n. cc (e, n s (stdin_message b));
    }
  ]

  copy_stdin-Copied :
      (r : Option Reader) (s : W.State) → Copied (source r) (W.sent s) (W.sent (copy_stdin W r s))
  unfolding copy_stdin
  copy_stdin-Copied none s = record {
    pre = [];
    post = [];
    all = refl;
    sent = sym (append-nil _);
    complete = λ _. refl;
  }
  copy_stdin-Copied (some r) s = copy-Copied r.chunks r.fault s

  -- The close message is sent, or the write of it has failed.
  close-sent :
      (s : W.State)
      → ((W.sent (close W stdin_writer s).1 ≡ W.sent s ++ (stdin_done_message ∷ []))
          ⊎ ((W.sent (close W stdin_writer s).1 ≡ W.sent s) × ¬ NeverFails W))
  unfolding close
  close-sent s = elim (Option-cases (W.write s stdin_done_message).1) [
    | inl e ↦ inl (f.sent-write_ok s stdin_done_message e)
    | inr (x, e) ↦
        inr (f.sent-write_err s stdin_done_message x e, λ n. cc (e, n s stdin_done_message))
  ]

  -- What `writeStdin` adds to the messages of the connection.
  record Stdin (bs : List Bytes) (before after : List Request) : Type 0 where
    rest : List Request
    post : Bytes
    sent : after ≡ before ++ rest
    all : stdin_payload (read_on rest []) ++ post ≡ contents bs
    complete : NeverFails W → (post ≡ []) × (stdin_ended (read_on rest []) ≡ true)

  write_stdin-Stdin :
      (r : Option Reader) (s : W.State) → Stdin (source r) (W.sent s) (W.sent (write_stdin W r s))
  unfolding write_stdin has_ended payload
  write_stdin-Stdin r s = elim (close-sent (copy_stdin W r s)) [
    | inl e ↦ record {
      rest = map stdin_message c.pre ++ (stdin_done_message ∷ []);
      post = contents c.post;
      sent = e ∙ ap (λ l. l ++ (stdin_done_message ∷ [])) c.sent ∙ append_assoc (W.sent s) _ _;
      all =
          rw (read_on-append (map stdin_message c.pre) (stdin_done_message ∷ []) [])
            (ap (λ p. p ++ contents c.post) (at_end.0 ∙ chunks.0) ∙ whole);
      complete = λ n. (
        ap contents (c.complete n),
        rw (read_on-append (map stdin_message c.pre) (stdin_done_message ∷ []) []) at_end.1,
      );
    }
    | inr (e, n) ↦ record {
      rest = map stdin_message c.pre;
      post = contents c.post;
      sent = e ∙ c.sent;
      all = ap (λ p. p ++ contents c.post) chunks.0 ∙ whole;
      complete = λ k. absurd (n k);
    }
  ]
    where
      c : Copied (source r) (W.sent s) (W.sent (copy_stdin W r s))
      c = copy_stdin-Copied r s

      chunks :
          (stdin_payload (read_on (map stdin_message c.pre) []) ≡ contents c.pre)
          × (stdin_ended (read_on (map stdin_message c.pre) []) ≡ false)
      chunks = stdin_payload-chunks c.pre [] refl

      at_end :
          (stdin_payload (stdin_done_message ∷ read_on (map stdin_message c.pre) [])
            ≡ stdin_payload (read_on (map stdin_message c.pre) []))
          × (stdin_ended (stdin_done_message ∷ read_on (map stdin_message c.pre) []) ≡ true)
      at_end = stdin_done_adds (read_on (map stdin_message c.pre) [])

      whole : contents c.pre ++ contents c.post ≡ contents (source r)
      whole = sym (contents-append c.pre c.post) ∙ ap contents (sym c.all)

module _ (W : Wire Request) (f : IsFaithful W) (r : StartProcRequest) (s : W.State)
    (fresh : W.sent s ≡ []) (written : (write_first_message W r s).0 ≡ none) where
  after_first : (l : List Request) → W.sent (write_first_message W r s).1 ++ l ≡ first_message r ∷ l
  unfolding write_first_message
  after_first l =
      ap (λ k. k ++ l)
        (f.sent-write_ok s (first_message r) written ∙ ap (λ k. k ++ (first_message r ∷ [])) fresh)

  -- On a connection that had sent nothing, and whatever writes fail after the first message, the
  -- server gets that message, and then requests that carry a first part of the client's stdin.
  pub write_stdin-prefix :
      (rest : List Request) × (post : Bytes) × (W.sent
          (write_stdin W r.stdin (write_first_message W r s).1)
        ≡ first_message r ∷ rest)
      × (stdin_payload (read_on rest []) ++ post ≡ contents (source r.stdin))
  write_stdin-prefix =
      let c = write_stdin-Stdin W f r.stdin (write_first_message W r s).1 in
      (c.rest, c.post, c.sent ∙ after_first c.rest, c.all)

  -- On a connection that had sent nothing, and that fails no write, the server gets the first
  -- message, and then requests that carry all of the client's stdin and end it.
  pub write_stdin_complete :
      NeverFails W
      → (rest : List Request) × (W.sent (write_stdin W r.stdin (write_first_message W r s).1)
          ≡ first_message r ∷ rest)
        × (stdin_payload (read_on rest []) ≡ contents (source r.stdin))
        × (stdin_ended (read_on rest []) ≡ true)
  write_stdin_complete n =
      let c = write_stdin-Stdin W f r.stdin (write_first_message W r s).1 in
      let (empty, over) = c.complete n in
      (
        c.rest,
        c.sent ∙ after_first c.rest,
        sym (append-nil _) ∙ ap (λ p. stdin_payload (read_on c.rest []) ++ p) (sym empty) ∙ c.all,
        over,
      )
