-- ===== src/Net/Sends.antt =====
-- Which bytes the socket helpers of net_util.cpp send.
use fusionfs_cache.Io.{Io, Call, done, fault, ◌>>=◌, send_bytes, sendto_bytes}
use fusionfs_cache.Io.Runs.{Every, Every-weaken, Every-bind}
use fusionfs_cache.Net.{make_client_socket, reuse_sock, general_send_to}
use fusionfs_cache.Prelude.{
  ℕ, ◌≡◌, refl, ap, ◌∙◌, Bool, true, false, List, [], ◌∷◌, ◌++◌, Bytes, c_str, if◌then◌else◌, ℤ,
  negsuc, is_neg, is_nat,
}

-- The byte strings that a run sends.
abbrev pub payloads : List Call → List Bytes
payloads [] = []
payloads (send_bytes s b ∷ t) = b ∷ payloads t
payloads (sendto_bytes s b ∷ t) = b ∷ payloads t
payloads (c ∷ t) = payloads t

pub payloads-append : (t u : List Call) → payloads (t ++ u) ≡ payloads t ++ payloads u
payloads-append [] u = refl
payloads-append (send_bytes s b ∷ t) u = ap (λ r. b ∷ r) (payloads-append t u)
payloads-append (sendto_bytes s b ∷ t) u = ap (λ r. b ∷ r) (payloads-append t u)
payloads-append (c ∷ t) u = payloads-append t u

-- Every run that ends sends exactly these byte strings, in this order.
pub record Sends {A : Type 0} (l : List Bytes) (m : Io A) : Type 0 where
  pub every : Every (λ t a. payloads t ≡ l) m

module _ {A B : Type 0} where
  pub Sends-bind :
      (l l' : List Bytes) (m : Io A) (f : A → Io B)
      → Sends l m
      → ((a : A) → Sends l' (f a))
      → Sends (l ++ l') (m >>= f)
  Sends-bind l l' m f sm sf = record {
    every =
        Every-bind (λ t b. payloads t ≡ l ++ l') m f
          (Every-weaken (λ t a. payloads t ≡ l)
            (λ t a. Every (λ t' b. payloads (t ++ t') ≡ l ++ l') (f a)) m
            (λ t a e.
              Every-weaken (λ t' b. payloads t' ≡ l') (λ t' b. payloads (t ++ t') ≡ l ++ l') (f a)
                (λ t' b e'. payloads-append t t' ∙ rw (e, e') refl) (sf a).every)
            sm.every);
  }

module _ {A : Type 0} where
  pub Sends-if :
      (l : List Bytes) (b : Bool) (m n : Io A)
      → Sends l m
      → Sends l n
      → Sends l (if b then m else n)
  Sends-if l true m n x y = x
  Sends-if l false m n x y = y

  pub Sends-fault : (l : List Bytes) → Sends {A = A} l fault
  Sends-fault l = record { every = tt }

  pub Sends-done : (a : A) → Sends [] (done a)
  Sends-done a = record { every = refl }

pub make_client_socket-silent :
    (host : Bytes) (port : ℕ) (tcp : Bool) → Sends [] (make_client_socket host port tcp)
unfolding make_client_socket
make_client_socket-silent host port true = record {
  every = λ r.
      (Sends-bind [] [] (if is_nat r.ret 0 then fault else done tt) _
        (Sends-if [] (is_nat r.ret 0) fault (done tt) (Sends-fault []) (Sends-done tt))
        (λ u. record {
          every = λ r₁.
              (Sends-if [] (is_neg r₁.ret) (done (negsuc 0)) _ (Sends-done _) (record {
                every = λ r₂.
                    (Sends-if [] (is_neg r₂.ret) (done (negsuc 0)) (done r₁.ret) (Sends-done _)
                      (Sends-done _)).every;
              })).every;
        })).every;
}
make_client_socket-silent host port false = record {
  every = λ r.
      (Sends-if [] (is_neg r.ret) _ (done r.ret) (record { every = λ r₁. refl })
        (Sends-done _)).every;
}

pub reuse_sock-silent : (sock : ℤ) → Sends [] (reuse_sock sock)
unfolding reuse_sock
reuse_sock-silent sock = record { every = λ r. refl }

pub general_send_to-Sends :
    (host : Bytes) (port : ℕ) (sock : ℤ) (buff : Bytes) (tcp : Bool)
    → Sends (c_str buff ∷ []) (general_send_to host port sock buff tcp)
unfolding general_send_to
general_send_to-Sends host port sock buff true = record { every = λ r. refl }
general_send_to-Sends host port sock buff false = record {
  every = λ r.
      (Sends-bind [] (c_str buff ∷ []) (if is_nat r.ret 0 then fault else done tt) _
        (Sends-if [] (is_nat r.ret 0) fault (done tt) (Sends-fault []) (Sends-done tt))
        (λ u. record { every = λ r₁. refl })).every;
}
