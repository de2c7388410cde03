-- ===== src/Uplink/Sparkplug/Options.antt =====
-- uplink/sparkplugb/tls.go, and the options of the MQTT client in sparkplugb.go. crypto/tls and
-- crypto/x509 are a parameter; the errors of reading the files are dropped.
use sensor_edge.Queue.{new_outbound_queue, Storage}
use sensor_edge.Go.Time.{nanoseconds}
use sensor_edge.Go.{panic, ok, ◌>>=◌, Error, Outcome}
use sensor_edge.Prelude.{
  pos, refl, ℤ, true, ℕ, [], none, ◌∷◌, Bool, if◌then◌else◌, false, ◌≡◌, some, String, List, Option,
}
use sensor_edge.Uplink.Sparkplug.{
  new_sparkplugb_uplink, SparkplugBUplink, SparkplugBConfig, broker_url,
}
use sensor_edge.Loaders.{Loaded}

-- Certificates and pools of them. A certificate that could not be loaded is the zero value.
pub record TlsLibrary (W : Type 0) : Type 1 where
  pub Certificate : Type 0
  pub CertPool : Type 0
  pub load_x509_key_pair : String → String → W → Certificate × Option Error
  pub read_file : String → W → Loaded (List ℕ)
  pub new_cert_pool : CertPool
  pub append_certs_from_pem : List ℕ → CertPool → CertPool

if_ok :
    {A B : Type 0} (b : Bool) (x y : A)
    → ((if b then ok x else ok y) >>= λ (a : A). let r : Outcome B = panic in r) ≡ panic
if_ok true x y = refl
if_ok false x y = refl

module _ {W : Type 0} (lib : TlsLibrary W) where
  open lib use {
    Certificate, CertPool, load_x509_key_pair, read_file, new_cert_pool, append_certs_from_pem,
  }

  -- tls.Config
  pub record TlsConfig : Type 0 where
    pub certificates : List Certificate
    pub root_cas : CertPool

  -- `config` is an atomic value, `none` until the first reload. key_password is never read.
  pub record TlsReloader : Type 0 where
    pub config : Option TlsConfig
    pub ca_file : String
    pub cert_file : String
    pub key_file : String
    pub key_password : String

  unfoldable pub reload : TlsReloader → W → TlsReloader
  reload r w = record r {
    config = some (record {
      certificates = (load_x509_key_pair r.cert_file r.key_file w).0 ∷ [];
      root_cas = append_certs_from_pem (read_file r.ca_file w).0 new_cert_pool;
    });
  }

  unfoldable pub new_tls_reloader : String → String → String → String → W → TlsReloader
  new_tls_reloader ca cert key key_pwd w =
      reload
        (record {
          config = none;
          ca_file = ca;
          cert_file = cert;
          key_file = key;
          key_password = key_pwd;
        })
        w

  -- watch: a reload every ten seconds, each in the world of its time.
  unfoldable pub watch : List W → TlsReloader → TlsReloader
  watch [] r = r
  watch (w ∷ ws) r = watch ws (reload r w)

  -- GetConfig panics where nothing is stored.
  unfoldable pub get_config : TlsReloader → Outcome TlsConfig
  get_config r = elim r.config [ none ↦ panic | some cfg ↦ ok cfg ]

  -- mqtt.ClientOptions; a nil TLS configuration is `none`.
  pub record ClientOptions : Type 0 where
    pub broker : String
    pub client_id : String
    pub username : String
    pub password : String
    pub tls_config : Option TlsConfig
    pub clean_session : Bool
    pub auto_reconnect : Bool
    pub connect_retry : Bool
    pub connect_retry_interval : ℤ

  abbrev options_with : SparkplugBConfig → Option TlsConfig → ClientOptions
  options_with cfg tls = record {
    broker = broker_url cfg;
    client_id = cfg.client_id;
    username = cfg.username;
    password = cfg.password;
    tls_config = tls;
    clean_session = false;
    auto_reconnect = true;
    connect_retry = true;
    connect_retry_interval = nanoseconds (pos 5);
  }

  -- The start of NewSparkplugBUplink.
  unfoldable pub client_options : SparkplugBConfig → W → Outcome ClientOptions
  client_options cfg w =
      if cfg.ssl
      then (get_config (new_tls_reloader cfg.ca_file cfg.cert_file cfg.key_file cfg.key_password w)
          >>= λ tls. ok (options_with cfg (some tls)))
      else ok (options_with cfg none)

  -- NewSparkplugBUplink: the options of its client, and the uplink.
  unfoldable pub new_with_client :
      {S : Type 0} → Storage S → SparkplugBConfig → W → Outcome (ClientOptions × SparkplugBUplink S)
  new_with_client st cfg w =
      client_options cfg w >>= λ options. new_sparkplugb_uplink st cfg >>= λ up. ok (options, up)

  watch-config :
      (ws : List W) (r : TlsReloader) (cfg : TlsConfig)
      → r.config ≡ some cfg
      → (cfg' : TlsConfig) × ((watch ws r).config ≡ some cfg')
  unfolding watch reload
  watch-config [] r cfg e = (cfg, e)
  watch-config (w ∷ ws) r cfg e = watch-config ws (reload r w) _ refl

  -- A reloader that was made has a configuration at any time, whatever its files hold then.
  pub get_config-watch :
      (ca cert key key_pwd : String) (w : W) (ws : List W)
      → (cfg : TlsConfig) × (get_config (watch ws (new_tls_reloader ca cert key key_pwd w))
          ≡ ok cfg)
  unfolding new_tls_reloader reload get_config
  get_config-watch ca cert key key_pwd w ws =
      let (cfg, e) = watch-config ws (new_tls_reloader ca cert key key_pwd w) _ refl in (cfg, rw e)

  -- The queue over a nil storage panics, with TLS and without.
  pub new_with_client-panics :
      {S : Type 0} (st : Storage S) (cfg : SparkplugBConfig) (w : W)
      → new_with_client st cfg w ≡ panic
  unfolding new_with_client client_options new_tls_reloader reload get_config new_sparkplugb_uplink
      new_outbound_queue
  new_with_client-panics st cfg w = if_ok cfg.ssl _ _
