-- ===== src/PingPong/Awake.antt =====
-- No wake-up of the threads around a ping-pong buffer (ping_pong_buf.c) is lost.
use psplay.Base.{
  ◌≡◌, refl, sym, ap, ◌∙◌, arith, Bool, Bool-cases, true, false, not, ◌&&◌, if◌then◌else◌, inl, inr,
  Option, none, some, Option-cases, >>=-eq-some, List, [], ◌∷◌, subst,
}
use psplay.PingPong.{Pair, write_begin, read_begin, get_state, write_done_turn, read_done_turn}
use psplay.PingPong.System.{
  Stage, outside, holding, served, turning, System, step_writer, step_reader,
}
use psplay.PingPong.Queue.{IsDrawn, Leads}
use psplay.PingPong.Order.{writer-Leads, reader-Leads, start-IsDrawn, awake}
use psplay.PingPong.Sleeping.{
  Sleepers, signals, Turn, writer_acts, reader_acts, writer_wakes, reader_wakes, start,
  writer_stepped, reader_stepped, take_turn, run,
}

both : (a b : Bool) → (a && not b) ≡ true → (a ≡ true) × (b ≡ false)
both true false h = (refl, refl)
both true true h = cc
both false b h = cc

module _ {A : Type 0} where
  -- A thread at `begin` that would have to sleep.
  abbrev pub WriterWaits : System A → Type 0
  WriterWaits y = (y.writer ≡ outside) × (write_begin y.pp ≡ none)

  abbrev pub ReaderWaits : System A → Type 0
  ReaderWaits y = (y.reader ≡ outside) × (read_begin y.pp ≡ none)

  record IsAwake (s : Sleepers A) : Type 0 where
    drawn : IsDrawn s.system
    writer_waits : s.writer_asleep ≡ true → WriterWaits s.system
    reader_waits : s.reader_asleep ≡ true → ReaderWaits s.system

  injected : (x y : System A) → some x ≡ some y → x ≡ y
  injected x y e = cc

  writer_blocked :
      (a : A) (w : Stage) (y : System A)
      → step_writer a w y ≡ none
      → (w ≡ outside) × (write_begin y.pp ≡ none)
  unfolding step_writer
  writer_blocked a outside y e = elim (Option-cases (write_begin y.pp)) [
    | inl asleep ↦ (refl, asleep)
    | inr (i, at) ↦ cc (rw at at e)
  ]
  writer_blocked a holding y e = cc
  writer_blocked a served y e = cc
  writer_blocked a turning y e = cc

  reader_blocked :
      (r : Stage) (y : System A) → step_reader r y ≡ none → (r ≡ outside) × (read_begin y.pp ≡ none)
  unfolding step_reader
  reader_blocked outside y e = elim (Option-cases (read_begin y.pp)) [
    | inl asleep ↦ (refl, asleep)
    | inr (i, at) ↦ cc (rw at at e)
  ]
  reader_blocked holding y e = cc
  reader_blocked served y e = cc
  reader_blocked turning y e = cc

  -- A step that does not signal leaves what the other thread waits for as it is.
  reader_left :
      (a : A) (w : Stage) (y y' : System A)
      → step_writer a w y ≡ some y'
      → signals w ≡ false
      → (y'.reader ≡ y.reader) × (read_begin y'.pp ≡ read_begin y.pp)
  unfolding step_writer read_begin get_state write_done_turn
  reader_left a outside y y' e q =
      let (i, at, e') = >>=-eq-some (write_begin y.pp) _ e in
      let p = sym (injected _ y' e') in (ap (λ z. z.reader) p, ap (λ z. read_begin z.pp) p)
  reader_left a holding y y' e q =
      let p = sym (injected _ y' e) in (ap (λ z. z.reader) p, ap (λ z. read_begin z.pp) p)
  reader_left a served y y' e q = cc
  reader_left a turning y y' e q =
      let p = sym (injected _ y' e) in (ap (λ z. z.reader) p, ap (λ z. read_begin z.pp) p)

  writer_left :
      (r : Stage) (y y' : System A)
      → step_reader r y ≡ some y'
      → signals r ≡ false
      → (y'.writer ≡ y.writer) × (write_begin y'.pp ≡ write_begin y.pp)
  unfolding step_reader write_begin get_state read_done_turn
  writer_left outside y y' e q =
      let (i, at, e') = >>=-eq-some (read_begin y.pp) _ e in
      let p = sym (injected _ y' e') in (ap (λ z. z.writer) p, ap (λ z. write_begin z.pp) p)
  writer_left holding y y' e q =
      let p = sym (injected _ y' e) in (ap (λ z. z.writer) p, ap (λ z. write_begin z.pp) p)
  writer_left served y y' e q = cc
  writer_left turning y y' e q =
      let p = sym (injected _ y' e) in (ap (λ z. z.writer) p, ap (λ z. write_begin z.pp) p)

  led : (o : Option (System A)) (y : System A) → Leads o → o ≡ some y → IsDrawn y
  led o y (inl e) p = cc
  led o y (inr (s, e, d)) p = subst IsDrawn (injected s y (sym e ∙ p)) d

  by_writer :
      (a : A) (s : Sleepers A)
      → s.writer_asleep ≡ false
      → IsAwake s
      → IsAwake (writer_stepped s (step_writer a s.system.writer s.system))
  unfolding writer_stepped
  by_writer a s up v = elim (Option-cases (step_writer a s.system.writer s.system)) [
    | inl stays ↦ rw stays (record {
      drawn = v.drawn;
      writer_waits = λ h. writer_blocked a s.system.writer s.system stays;
      reader_waits = v.reader_waits;
    })
    | inr (y, goes) ↦ rw goes (record {
      drawn = led _ y (writer-Leads a s.system v.drawn) goes;
      writer_waits = λ h. cc;
      reader_waits = λ h.
          let (slept, quiet) = both s.reader_asleep (signals s.system.writer) h in
          let (at, cannot) = v.reader_waits slept in
          let (same, kept) = reader_left a s.system.writer s.system y goes quiet in
          (same ∙ at, kept ∙ cannot);
    })
  ]

  by_reader :
      (s : Sleepers A)
      → s.reader_asleep ≡ false
      → IsAwake s
      → IsAwake (reader_stepped s (step_reader s.system.reader s.system))
  unfolding reader_stepped
  by_reader s up v = elim (Option-cases (step_reader s.system.reader s.system)) [
    | inl stays ↦ rw stays (record {
      drawn = v.drawn;
      writer_waits = v.writer_waits;
      reader_waits = λ h. reader_blocked s.system.reader s.system stays;
    })
    | inr (y, goes) ↦ rw goes (record {
      drawn = led _ y (reader-Leads s.system v.drawn) goes;
      writer_waits = λ h.
          let (slept, quiet) = both s.writer_asleep (signals s.system.reader) h in
          let (at, cannot) = v.writer_waits slept in
          let (same, kept) = writer_left s.system.reader s.system y goes quiet in
          (same ∙ at, kept ∙ cannot);
      reader_waits = λ h. cc;
    })
  ]

  take_turn-IsAwake : (t : Turn A) (s : Sleepers A) → IsAwake s → IsAwake (take_turn t s)
  unfolding take_turn
  take_turn-IsAwake (writer_acts a) s v =
      let stepped = writer_stepped s (step_writer a s.system.writer s.system) in
      elim (Bool-cases s.writer_asleep) [
        | inl sleeps ↦ subst (λ b. IsAwake (if b then s else stepped)) (sym sleeps) v
        | inr up ↦ subst (λ b. IsAwake (if b then s else stepped)) (sym up) (by_writer a s up v)
      ]
  take_turn-IsAwake reader_acts s v =
      let stepped = reader_stepped s (step_reader s.system.reader s.system) in
      elim (Bool-cases s.reader_asleep) [
        | inl sleeps ↦ subst (λ b. IsAwake (if b then s else stepped)) (sym sleeps) v
        | inr up ↦ subst (λ b. IsAwake (if b then s else stepped)) (sym up) (by_reader s up v)
      ]
  take_turn-IsAwake writer_wakes s v = record {
    drawn = v.drawn;
    writer_waits = λ h. cc;
    reader_waits = v.reader_waits;
  }
  take_turn-IsAwake reader_wakes s v = record {
    drawn = v.drawn;
    writer_waits = v.writer_waits;
    reader_waits = λ h. cc;
  }

  run-IsAwake : (turns : List (Turn A)) (s : Sleepers A) → IsAwake s → IsAwake (run turns s)
  unfolding run
  run-IsAwake [] s v = v
  run-IsAwake (t ∷ turns) s v = run-IsAwake turns (take_turn t s) (take_turn-IsAwake t s v)

  start-IsAwake : (buf : Pair A) → IsAwake (start buf)
  start-IsAwake buf = record {
    drawn = start-IsDrawn buf;
    writer_waits = λ h. cc;
    reader_waits = λ h. cc;
  }

  -- In every order of the turns of the two threads, wake-ups without a signal included, a writer that
  -- sleeps is at the beginning of a write whose buffer is not free: no signal to it is lost.
  pub run-WriterWaits :
      (buf : Pair A) (turns : List (Turn A))
      → (run turns (start buf)).writer_asleep ≡ true
      → WriterWaits (run turns (start buf)).system
  run-WriterWaits buf turns = (run-IsAwake turns (start buf) (start-IsAwake buf)).writer_waits

  -- In the same way, a reader that sleeps is at the beginning of a read whose buffer is not active.
  pub run-ReaderWaits :
      (buf : Pair A) (turns : List (Turn A))
      → (run turns (start buf)).reader_asleep ≡ true
      → ReaderWaits (run turns (start buf)).system
  run-ReaderWaits buf turns = (run-IsAwake turns (start buf) (start-IsAwake buf)).reader_waits

  stuck : (y : System A) → IsDrawn y → WriterWaits y → ReaderWaits y → (a : A) → ⊥
  unfolding step_writer step_reader
  stuck y d (w, cannot_write) (r, cannot_read) a = elim (awake a y d) [
    | inl (y', e) ↦ cc (rw (w, cannot_write) at e)
    | inr (y', e) ↦ cc (rw (r, cannot_read) at e)
  ]

  -- In every order of the turns of the two threads, wake-ups without a signal included, the two never
  -- both sleep.
  pub run-awake :
      (buf : Pair A) (turns : List (Turn A))
      → ((run turns (start buf)).writer_asleep && (run turns (start buf)).reader_asleep) ≡ false
  run-awake buf turns =
      by_both (run turns (start buf)) (run-IsAwake turns (start buf) (start-IsAwake buf))
    where
      by_both : (s : Sleepers A) → IsAwake s → (s.writer_asleep && s.reader_asleep) ≡ false
      by_both s v = elim (Bool-cases s.writer_asleep) [
        | inr up ↦ rw up refl
        | inl sleeps ↦ elim (Bool-cases s.reader_asleep) [
          | inr up ↦ ground arith
          | inl sleeps' ↦
              absurd
                (stuck s.system v.drawn (v.writer_waits sleeps) (v.reader_waits sleeps') buf.at_0)
        ]
      ]
