-- ===== src/Tests/ClientYaml.antt =====
-- A concrete writer and reader of the client's file, in place of the YAML library.
use pspxy.Base.{
  ℕ, zero, suc, ◌≡◌, refl, sym, ap, ◌∙◌, ℤ, pos, negsuc, pos_part, Bool, true, false, List, [], ◌∷◌,
  ◌++◌, Option, none, some, Text, length, take, drop, take-append_length, drop-append_length, arith,
}
use pspxy.ClientTunnel.Tunnel.{Config, zero_config}
use pspxy.ClientTunnel.Reverse.{ReverseProviderPersist, ReverseConsumerPersist}
use pspxy.ClientConfig.{FileUnified, Yaml, YamlLaws}

-- Values as numbers in front of what follows.
record Codec (A : Type 0) : Type 0 where
  write : A → Text → Text
  read : Text → A × Text
  law : (a : A) (k : Text) → read (write a k) ≡ (a, k)

read_text : Text → Text × Text
read_text [] = ([], [])
read_text (n ∷ r) = (take n r, drop n r)

text : Codec Text
unfolding read_text
text = record {
  write = λ t k. length t ∷ (t ++ k);
  read = read_text;
  law = λ t k. simp (take-append_length, drop-append_length);
}

write_int : ℤ → Text → Text
write_int (pos n) k = 0 ∷ n ∷ k
write_int (negsuc n) k = 1 ∷ n ∷ k

read_int : Text → ℤ × Text
read_int (zero ∷ n ∷ r) = (pos n, r)
read_int (_ ∷ n ∷ r) = (negsuc n, r)
read_int _ = (pos 0, [])

int-law : (a : ℤ) (k : Text) → read_int (write_int a k) ≡ (a, k)
unfolding read_int write_int
int-law (pos n) k = refl
int-law (negsuc n) k = refl

int : Codec ℤ
int = record { write = write_int; read = read_int; law = int-law }

write_flag : Option Bool → Text → Text
write_flag none k = 0 ∷ k
write_flag (some false) k = 1 ∷ k
write_flag (some true) k = 2 ∷ k

read_flag : Text → Option Bool × Text
read_flag (suc zero ∷ r) = (some false, r)
read_flag (suc (suc zero) ∷ r) = (some true, r)
read_flag (_ ∷ r) = (none, r)
read_flag [] = (none, [])

flag-law : (a : Option Bool) (k : Text) → read_flag (write_flag a k) ≡ (a, k)
unfolding read_flag write_flag
flag-law none k = refl
flag-law (some false) k = refl
flag-law (some true) k = refl

flag : Codec (Option Bool)
flag = record { write = write_flag; read = read_flag; law = flag-law }

module _ {A B : Type 0} (c : Codec A) (d : Codec B) where
  read_both : Text → (A × B) × Text
  read_both t = let x = c.read t in let y = d.read x.1 in ((x.0, y.0), y.1)

  both : Codec (A × B)
  unfolding read_both
  both = record {
    write = λ p k. c.write p.0 (d.write p.1 k);
    read = read_both;
    law = λ p k. rw (c.law p.0 (d.write p.1 k)) (rw (d.law p.1 k) refl);
  }

module _ {A : Type 0} (c : Codec A) where
  write_items : List A → Text → Text
  write_items [] k = k
  write_items (x ∷ xs) k = c.write x (write_items xs k)

  read_items : ℕ → Text → List A × Text
  read_items zero t = ([], t)
  read_items (suc n) t = let x = c.read t in let xs = read_items n x.1 in (x.0 ∷ xs.0, xs.1)

  items-law : (xs : List A) (k : Text) → read_items (length xs) (write_items xs k) ≡ (xs, k)
  unfolding read_items write_items
  items-law [] k = refl
  items-law (x ∷ xs) k = rw (c.law x (write_items xs k)) (rw (items-law xs k) refl)

  read_list : Text → List A × Text
  unfolding read_items
  read_list [] = ([], [])
  read_list (n ∷ t) = read_items n t

  list : Codec (List A)
  unfolding read_list write_items
  list = record { write = λ xs k. length xs ∷ write_items xs k; read = read_list; law = items-law }

-- A type that is another one with the fields named.
module _ {A B : Type 0} (c : Codec A) (to : A → B) (from : B → A)
    (back : (b : B) → to (from b) ≡ b) where
  named : Codec B
  named = record {
    write = λ b k. c.write (from b) k;
    read = λ t. let x = c.read t in (to x.0, x.1);
    law = λ b k. rw (c.law (from b) k) (rw (back b) refl);
  }

config : Codec Config
unfolding named
config =
    named (both text (both text (both text (both int text))))
      (λ p. record {
        id = p.0;
        server_url = p.1.0;
        proxy_id = p.1.1.0;
        local_port = p.1.1.1.0;
        api_key = p.1.1.1.1;
      })
      (λ c. (c.id, (c.server_url, (c.proxy_id, (c.local_port, c.api_key))))) (λ c. refl)

provider : Codec ReverseProviderPersist
unfolding named
provider =
    named (both text (both text (both text (both int (both text (both text flag))))))
      (λ p. record {
        id = p.0;
        server_url = p.1.0;
        local_host = p.1.1.0;
        local_port = p.1.1.1.0;
        api_key = p.1.1.1.1.0;
        channel_id = p.1.1.1.1.1.0;
        enabled = p.1.1.1.1.1.1;
      })
      (λ c. (
        c.id,
        (c.server_url, (c.local_host, (c.local_port, (c.api_key, (c.channel_id, c.enabled))))),
      ))
      (λ c. refl)

consumer : Codec ReverseConsumerPersist
unfolding named
consumer =
    named (both text (both text (both text (both text (both flag text)))))
      (λ p. record {
        id = p.0;
        listen = p.1.0;
        server_url = p.1.1.0;
        api_key = p.1.1.1.0;
        enabled = p.1.1.1.1.0;
        legacy_channel_id = p.1.1.1.1.1;
      })
      (λ c. (c.id, (c.listen, (c.server_url, (c.api_key, (c.enabled, c.legacy_channel_id))))))
      (λ c. refl)

file : Codec FileUnified
unfolding named
file =
    named (both int (both (list config) (both (list provider) (list consumer))))
      (λ p. record {
        version = pos_part p.0;
        proxies = p.1.0;
        reverse_providers = p.1.1.0;
        reverse_consumers = p.1.1.1;
      })
      (λ f. (pos f.version, (f.proxies, (f.reverse_providers, f.reverse_consumers)))) (λ f. refl)

read_file : Text → Option FileUnified
read_file t = some (file.read t).0

unwrapped : (s t : Text) → some s ≡ some t → s ≡ t
unwrapped s t e = ground arith

pub client_yaml : Yaml
unfolding read_file file
client_yaml = record {
  marshal = λ f. some (file.write f []);
  unmarshal = read_file;
  unmarshal_legacy = λ t. some zero_config;
}

pub client_yaml-YamlLaws : YamlLaws client_yaml
unfolding client_yaml read_file file
client_yaml-YamlLaws = record {
  round_trip = λ f t e.
      ap (λ (s : Text). some (file.read s).0) (sym (unwrapped (file.write f []) t e))
      ∙ ap (λ (r : FileUnified × Text). some r.0) (file.law f []);
  legacy_zero = λ f t e. refl;
}

-- Every file can be written.
pub client_yaml-marshal : (f : FileUnified) → (t : Text) × (client_yaml.marshal f ≡ some t)
unfolding client_yaml
client_yaml-marshal f = (file.write f [], refl)
