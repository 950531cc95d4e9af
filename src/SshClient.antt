-- ===== src/SshClient.antt =====
-- internal/sshclient/client.go: the choice of the private key in Signer, the check of host keys in
-- HostKeys, and a client and its commands in Client.
pub mod Signer
pub mod HostKeys
pub mod Client
