-- ===== src/Main/Serve/Sockets.antt =====
-- The socket's file of main.rs, over the life of the server, under laws of the file system.
use kv260_sigverify.Prelude.{
  ℕ, ◌≡◌, refl, sym, ap, ◌∙◌, List, [], ◌∷◌, String, Bool, true, false, Option, none, some, ◌⊎◌,
  inl, inr, Outcome, ok, err, panic, if◌then◌else◌, Bool-cases,
}
use kv260_sigverify.Accelerator.Host as Device
use kv260_sigverify.Api.Types.{Crates}
use kv260_sigverify.Main.Args.{ServeArgs, serve_command}
use kv260_sigverify.Main.Router.{Route}
use kv260_sigverify.Main.Serve.{
  Runtime, Event, terminate, ctrl_c, no_handler, accepted, Io, pure, then_with, ◌>>=◌, ◌>>◌, io,
  ask, outcome_of, create_parent, remove_if_exists, accept_loop, serve_at, serve, main,
}

-- `exists` tells whether there is a file at the path, and after a `remove_file` that succeeds there is
-- none.
pub record Files {App : Type 0} (r : Runtime App) (path : String) : Type 0 where
  pub present : r.World → Bool
  pub exists_tells : (w : r.World) → (r.exists path w).0 ≡ present w
  pub exists_keeps : (w : r.World) → present (r.exists path w).1 ≡ present w
  pub removed :
      (w : r.World) → (r.remove_file path w).0 ≡ inr tt → present (r.remove_file path w).1 ≡ false

-- The calls of a system where nothing is in the way of the daemon: only a file at the path keeps
-- `bind` from working.
pub record Works {App : Type 0} (r : Runtime App) (path : String) (files : Files r path)
    : Type 0 where
  pub creates : (directory : String) (w : r.World) → (r.create_dir_all directory w).0 ≡ inr tt
  pub removes : (w : r.World) → files.present w ≡ true → (r.remove_file path w).0 ≡ inr tt
  pub binds :
      (w : r.World) → files.present w ≡ false → (l : r.Listener) × ((r.bind path w).0 ≡ inr l)

pair-eq : {A W : Type 0} (p : A × W) {a : A} → p.0 ≡ a → p ≡ (a, p.1)
pair-eq (x, w) e = rw e refl

-- A step that ends with true ends in a world with a property.
record Leaves {W : Type 0} (P : W → Type 0) (m : Io W Bool) : Type 0 where
  holds : (w : W) → (m w).0 ≡ ok true → P (m w).1

then_with-Leaves :
    {A W : Type 0} {P : W → Type 0} (f : A → Io W Bool) (p : Outcome String A × W)
    → ((a : A) → Leaves P (f a))
    → (then_with f p).0 ≡ ok true
    → P (then_with f p).1
then_with-Leaves f (ok a, w) each e = (each a).holds w e
then_with-Leaves f (err error, w) each e = cc
then_with-Leaves f (panic, w) each e = cc

bind-Leaves :
    {A W : Type 0} {P : W → Type 0} (m : Io W A) (f : A → Io W Bool)
    → ((a : A) → Leaves P (f a))
    → Leaves P (m >>= f)
bind-Leaves m f each = record { holds = λ w e. then_with-Leaves f (m w) each e }

module _ {App : Type 0} (r : Runtime App) where
  open r use {World, Stream}

  -- What the first event that is no connection comes to.
  abbrev pub ending : List (Event Stream) → Outcome String Bool
  ending [] = ok false
  ending (terminate ∷ events) = ok true
  ending (ctrl_c ∷ events) = ok true
  ending (no_handler error ∷ events) = panic
  ending (accepted (inl error) ∷ events) = err error
  ending (accepted (inr stream) ∷ events) = ending events

  -- The connections in front of it.
  abbrev connections : List (Event Stream) → List Stream
  connections (accepted (inr stream) ∷ events) = stream ∷ connections events
  connections _ = []

  abbrev spawn_all : App → List Stream → World → World
  spawn_all app [] w = w
  spawn_all app (stream ∷ streams) w = spawn_all app streams (r.spawn app stream w)

  -- For every sequence of events, the loop serves exactly the connections in front of the first event
  -- that is none, in their order, and ends as that event says: with success on a signal, with its
  -- error on a failed `accept`, in a panic if the signal handler cannot be installed, and not at all
  -- without one.
  accept_loop-ending :
      (app : App) (events : List (Event Stream)) (w : World)
      → accept_loop r app events w ≡ (ending events, spawn_all app (connections events) w)
  unfolding accept_loop
  accept_loop-ending app [] w = refl
  accept_loop-ending app (terminate ∷ events) w = refl
  accept_loop-ending app (ctrl_c ∷ events) w = refl
  accept_loop-ending app (no_handler error ∷ events) w = refl
  accept_loop-ending app (accepted (inl error) ∷ events) w = refl
  accept_loop-ending app (accepted (inr stream) ∷ events) w =
      accept_loop-ending app events (r.spawn app stream w)

  module _ (path : String) (files : Files r path) where
    -- What is left to do after the loop, and from `bind` on.
    abbrev closing : Bool → Io World Bool
    closing stopped = if stopped then remove_if_exists r path >> pure true else pure false

    abbrev listening : App → List (Event Stream) → Io World Bool
    listening app events = io (r.bind path) >>= λ listener. accept_loop r app events >>= closing

    -- Where `remove_if_exists` succeeds there is no file behind it.
    remove_if_exists_absent :
        (w : World)
        → (remove_if_exists r path w).0 ≡ ok tt
        → files.present (remove_if_exists r path w).1 ≡ false
    unfolding remove_if_exists
    remove_if_exists_absent w done = elim (Bool-cases (r.exists path w).0) [
      | inl there ↦ rw there (files.removed (r.exists path w).1 (removed_lem _ (rw there at done)))
      | inr absent ↦ rw absent (files.exists_keeps w ∙ (sym (files.exists_tells w) ∙ absent))
    ]
      where
        removed_lem : (x : String ⊎ Unit {0}) → outcome_of x ≡ ok tt → x ≡ inr tt
        removed_lem (inl error) e = cc
        removed_lem (inr tt) e = refl

    remove_if_exists-Works :
        Works r path files
        → (w : World)
        → (w2 : World) × (remove_if_exists r path w ≡ (ok tt, w2)) × (files.present w2 ≡ false)
    unfolding remove_if_exists
    remove_if_exists-Works works w =
        let succeeds : (remove_if_exists r path w).0 ≡ ok tt =
          elim (Bool-cases (r.exists path w).0) [
            | inl there ↦ rw there (
                ap outcome_of (
                  works.removes (r.exists path w).1
                    (files.exists_keeps w ∙ (sym (files.exists_tells w) ∙ there))))
            | inr absent ↦ rw absent refl
          ] in
        (_, pair-eq _ succeeds, remove_if_exists_absent w succeeds)

    create_parent-Works :
        Works r path files → (w : World) → (w2 : World) × (create_parent r path w ≡ (ok tt, w2))
    unfolding create_parent
    create_parent-Works works w = go (r.parent path) refl
      where
        go :
            (o : Option String)
            → r.parent path ≡ o
            → (w2 : World) × (create_parent r path w ≡ (ok tt, w2))
        go none e = rw (e, create_parent) (w, refl)
        go (some directory) e =
            rw (e, create_parent) (_, pair-eq _ (ap outcome_of (works.creates directory w)))

    closing-Works :
        Works r path files
        → (o : Outcome String Bool) (w : World) → (then_with closing (o, w)).0 ≡ o
    closing-Works works (ok true) w =
        let (w2, e, absent) = remove_if_exists-Works works w in rw e refl
    closing-Works works (ok false) w = refl
    closing-Works works (err error) w = refl
    closing-Works works panic w = refl

    -- The server starts, and ends as its events say.
    pub serve_at-ending :
        Works r path files
        → (log_filter : String) (app : App) (events : List (Event Stream)) (w : World)
        → (serve_at r log_filter path app events w).0 ≡ ending events
    unfolding serve_at
    serve_at-ending works log_filter app events w =
        let (w1, created) = create_parent-Works works (r.init_tracing log_filter w) in
        let (w2, cleared, absent) = remove_if_exists-Works works w1 in
        let (l, bound) = works.binds w2 absent in
        let heard : io (r.bind path) w2 ≡ (ok l, (r.bind path w2).1) =
          pair-eq _ (ap outcome_of bound) in
        rw (created, cleared)
          (rw heard (
            rw (accept_loop-ending app events (r.bind path w2).1)
              (closing-Works works (ending events) _)))

    done_lem :
        (o : Outcome String (Unit {0})) (w : World)
        → (o ≡ ok tt → files.present w ≡ false)
        → (then_with (λ done. pure true) (o, w)).0 ≡ ok true
        → files.present (then_with {B = Bool} (λ done. pure true) (o, w)).1 ≡ false
    done_lem (ok tt) w absent e = absent refl
    done_lem (err error) w absent e = cc
    done_lem panic w absent e = cc

    closing-Leaves : (stopped : Bool) → Leaves (λ w. files.present w ≡ false) (closing stopped)
    closing-Leaves true = record {
      holds = λ w e.
          done_lem (remove_if_exists r path w).0 (remove_if_exists r path w).1
            (remove_if_exists_absent w) e;
    }
    closing-Leaves false = record { holds = λ w e. cc }

    pub serve_at_absent :
        (log_filter : String) (app : App) (events : List (Event Stream)) (w : World)
        → (serve_at r log_filter path app events w).0 ≡ ok true
        → files.present (serve_at r log_filter path app events w).1 ≡ false
    unfolding serve_at
    serve_at_absent log_filter app events w =
        let leaves : Leaves (λ w. files.present w ≡ false) (serve_at r log_filter path app events) =
          bind-Leaves (ask (λ w. (tt {0}, r.init_tracing log_filter w)))
            (λ a. create_parent r path >> (remove_if_exists r path >> listening app events))
            (λ a. bind-Leaves (create_parent r path) _ (λ b.
              bind-Leaves (remove_if_exists r path) _ (λ d.
                bind-Leaves (io (r.bind path)) _
                  (λ l. bind-Leaves (accept_loop r app events) _ closing-Leaves)))) in
        leaves.holds w

module _ (h : Device.Host) (fuel : ℕ) (c : Crates)
    (r : Runtime (List (Route (Bool × h.World)))) where
  -- On a file system where nothing but a file at the socket's path is in the way of `bind`, the daemon
  -- starts from every world, with a socket left there by an earlier run or without one, and serves
  -- until the first event that is no connection: it comes to success on a signal, to the error of a
  -- failed `accept`, and to a panic if the signal handler cannot be installed.
  pub main-ending :
      (args : ServeArgs) (files : Files r args.socket_path)
      → Works r args.socket_path files
      → (events : List (Event r.Stream)) (w : r.World)
      → (main h fuel c r (serve_command args) events w).0 ≡ ending r events
  unfolding main serve
  main-ending args files works events w =
      serve_at-ending r args.socket_path files works args.log_filter _ events w

  -- Whatever the other calls do, a daemon that ends with success leaves no file at its socket's path.
  pub main_absent :
      (args : ServeArgs) (files : Files r args.socket_path) (events : List (Event r.Stream))
      (w : r.World)
      → (main h fuel c r (serve_command args) events w).0 ≡ ok true
      → files.present (main h fuel c r (serve_command args) events w).1 ≡ false
  unfolding main serve
  main_absent args files events w =
      serve_at_absent r args.socket_path files args.log_filter _ events w
