-- ===== src/Net/Contacts.antt =====
-- Whom the socket helpers of src/zht/src/common/net_util.cpp look up, and on which socket they send.
use fusionfs_cache.Io.{Io, Call, done, fault, ◌>>=◌, gethostbyname, send_bytes, sendto_bytes}
use fusionfs_cache.Io.Runs.{Every, Every-weaken, Every-bind}
use fusionfs_cache.Net.{resolve, make_client_socket, reuse_sock, general_send_to}
use fusionfs_cache.Prelude.{
  ℕ, ◌≡◌, refl, sym, ap, subst, Bool, true, false, List, [], ◌∷◌, ◌++◌, Bytes, c_str, if◌then◌else◌,
  ℤ, negsuc, is_neg, is_nat,
}

-- A host that is looked up by its name, or bytes that are sent on a socket.
pub data Contact : Type 0 where
  asked : Bytes → Contact
  sent : ℤ → Bytes → Contact

abbrev pub contacts : List Call → List Contact
contacts [] = []
contacts (gethostbyname h ∷ t) = asked h ∷ contacts t
contacts (send_bytes s b ∷ t) = sent s b ∷ contacts t
contacts (sendto_bytes s b ∷ t) = sent s b ∷ contacts t
contacts (c ∷ t) = contacts t

contacts-append : (t u : List Call) → contacts (t ++ u) ≡ contacts t ++ contacts u
contacts-append [] u = refl
contacts-append (gethostbyname h ∷ t) u = ap (λ r. asked h ∷ r) (contacts-append t u)
contacts-append (send_bytes s b ∷ t) u = ap (λ r. sent s b ∷ r) (contacts-append t u)
contacts-append (sendto_bytes s b ∷ t) u = ap (λ r. sent s b ∷ r) (contacts-append t u)
contacts-append (c ∷ t) u = contacts-append t u

-- Every run that ends has such contacts and such a result.
pub record Reaches {A : Type 0} (P : List Contact → A → Type 0) (m : Io A) : Type 0 where
  pub every : Every (λ t a. P (contacts t) a) m

module _ {A B : Type 0} where
  pub Reaches-bind :
      (P : List Contact → A → Type 0) (R : List Contact → B → Type 0) (m : Io A) (f : A → Io B)
      → Reaches P m
      → ((l : List Contact) (a : A) → P l a → Reaches (λ l' b. R (l ++ l') b) (f a))
      → Reaches R (m >>= f)
  Reaches-bind P R m f sm sf = record {
    every =
        Every-bind (λ t b. R (contacts t) b) m f
          (Every-weaken (λ t a. P (contacts t) a)
            (λ t a. Every (λ t' b. R (contacts (t ++ t')) b) (f a)) m
            (λ t a e.
              Every-weaken (λ t' b. R (contacts t ++ contacts t') b)
                (λ t' b. R (contacts (t ++ t')) b) (f a)
                (λ t' b e'. subst (λ l. R l b) (sym (contacts-append t t')) e')
                (sf (contacts t) a e).every)
            sm.every);
  }

module _ {A : Type 0} (P : List Contact → A → Type 0) where
  pub Reaches-if :
      (b : Bool) (m n : Io A) → Reaches P m → Reaches P n → Reaches P (if b then m else n)
  Reaches-if true m n x y = x
  Reaches-if false m n x y = y

  pub Reaches-fault : Reaches P fault
  Reaches-fault = record { every = tt }

  pub Reaches-done : (a : A) → P [] a → Reaches P (done a)
  Reaches-done a e = record { every = e }

pub Reaches-weaken :
    {A : Type 0} (P Q : List Contact → A → Type 0) (m : Io A)
    → ((l : List Contact) (a : A) → P l a → Q l a)
    → Reaches P m
    → Reaches Q m
Reaches-weaken P Q m h r = record {
  every =
      Every-weaken (λ t a. P (contacts t) a) (λ t a. Q (contacts t) a) m (λ t a. h (contacts t) a)
        r.every;
}

-- Exactly these contacts.
abbrev pub Exactly : {A : Type 0} → List Contact → List Contact → A → Type 0
Exactly l l' a = l' ≡ l

resolve-Reaches : (host : Bytes) → Reaches (Exactly (asked (c_str host) ∷ [])) (resolve host)
unfolding resolve
resolve-Reaches host = record {
  every = λ r.
      (Reaches-if (λ l a. asked (c_str host) ∷ l ≡ asked (c_str host) ∷ []) (is_nat r.ret 0) fault
        (done tt) (Reaches-fault _) (Reaches-done _ tt refl)).every;
}

-- A TCP socket takes one lookup of the host, a UDP socket none.
pub make_client_socket-Reaches :
    (host : Bytes) (port : ℕ) (tcp : Bool)
    → Reaches
        (Exactly (if tcp then asked (c_str host) ∷ [] else []))
        (make_client_socket host port tcp)
unfolding make_client_socket
make_client_socket-Reaches host port true =
    Reaches-bind (Exactly (asked (c_str host) ∷ [])) (Exactly (asked (c_str host) ∷ []))
      (resolve host) _ (resolve-Reaches host)
      (λ l u e.
        Reaches-weaken (Exactly []) (λ l' b. l ++ l' ≡ asked (c_str host) ∷ []) _
          (λ l' b e'. rw (e, e') refl)
          (record {
            every = λ r₁.
                (Reaches-if (Exactly []) (is_neg r₁.ret) (done (negsuc 0)) _ (Reaches-done _ _ refl)
                  (record {
                    every = λ r₂.
                        (Reaches-if (Exactly []) (is_neg r₂.ret) (done (negsuc 0)) (done r₁.ret)
                          (Reaches-done _ _ refl) (Reaches-done _ _ refl)).every;
                  })).every;
          }))
make_client_socket-Reaches host port false = record {
  every = λ r.
      (Reaches-if (λ l a. l ≡ []) (is_neg r.ret) _ (done r.ret) (record { every = λ r₁. refl })
        (Reaches-done _ _ refl)).every;
}

pub reuse_sock-Reaches : (sock : ℤ) → Reaches (Exactly []) (reuse_sock sock)
unfolding reuse_sock
reuse_sock-Reaches sock = record { every = λ r. refl }

-- One message goes out on the socket, by UDP behind a lookup of the host.
pub general_send_to-Reaches :
    (host : Bytes) (port : ℕ) (sock : ℤ) (buff : Bytes) (tcp : Bool)
    → Reaches
        (Exactly (
          if tcp
          then sent sock (c_str buff) ∷ []
          else asked (c_str host) ∷ sent sock (c_str buff) ∷ []))
        (general_send_to host port sock buff tcp)
unfolding general_send_to
general_send_to-Reaches host port sock buff true = record { every = λ r. refl }
general_send_to-Reaches host port sock buff false =
    Reaches-bind (Exactly (asked (c_str host) ∷ []))
      (Exactly (asked (c_str host) ∷ sent sock (c_str buff) ∷ [])) (resolve host) _
      (resolve-Reaches host) (λ l u e. record { every = λ r. rw e refl })
